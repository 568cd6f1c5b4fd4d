-- ===== src/Client/Transfer.antt =====
-- File transfer and video frames over a data channel, native_client/internal/chat/webrtc.go: SendFile
-- and the OnMessage handler that setupDataChannel sets. A data channel is ordered and reliable, so
-- what arrives is what was sent, in its order. The JSON of the header and the JPEG decoder are
-- parameters.
pub mod Sent
pub mod Whole
use skype7_reborn.Prelude.{
  ℕ, zero, suc, String, Bool, true, false, ◌&&◌, Option, none, some, List, [], ◌∷◌, ◌++◌, ◌==◌,
  nat_eq, length, map, if◌then◌else◌, Result, ok, err,
}
use skype7_reborn.Prelude.Int.{ℤ}
use skype7_reborn.Prelude.Dict.{lookup, insert, erase}
use skype7_reborn.Prelude.Table.{limit, any_row}
use skype7_reborn.Client.Crypto.{drop_bytes}

abbrev pub Bytes : Type 0
Bytes = List ℕ

pub record FileRx : Type 0 where
  pub name : String
  pub size : ℤ
  pub buf : Bytes

-- What OnFile is called with.
pub record Received : Type 0 where
  pub peer : String
  pub name : String
  pub size : ℤ
  pub content : Bytes

pub record Codec : Type 0 where
  pub encode_header : String → ℕ → Bytes
  pub decode_header : Bytes → Option (String × ℤ)
  -- jpeg.Decode, with an image as the bytes that it was decoded from
  pub decode_jpeg : Bytes → Option Bytes

pub record Channel : Type 0 where
  pub rx_state : List (String × FileRx)
  -- The peers with a callback for video frames
  pub remote_video : List String
  pub frames : List (String × Bytes)
  -- OnFile is set; what it was called with
  pub has_on_file : Bool
  pub files : List Received

unfoldable pub has_prefix : Bytes → Bytes → Bool
has_prefix [] bs = true
has_prefix (x ∷ p) [] = false
has_prefix (x ∷ p) (b ∷ bs) = nat_eq x b && has_prefix p bs

-- data.IndexByte(data, '\n'), as what stands before the newline and after it
unfoldable pub cut_line : Bytes → Option (Bytes × Bytes)
cut_line [] = none
cut_line (b ∷ bs) =
    if nat_eq b 10
    then some ([], bs)
    else elim (cut_line bs) [ none ↦ none | some (x, y) ↦ some (b ∷ x, y) ]

abbrev pub vid : Bytes
vid = 86 ∷ 73 ∷ 68 ∷ []

abbrev pub hdr : Bytes
hdr = 72 ∷ 68 ∷ 82 ∷ []

abbrev pub end_mark : Bytes
end_mark = 69 ∷ 78 ∷ 68 ∷ []

unfoldable pub is_peer : String → String → Bool
is_peer peer p = p == peer

unfoldable pub on_video : Codec → String → Bytes → Channel → Channel
unfolding is_peer
on_video c peer jpeg ch = elim (c.decode_jpeg jpeg) [
  | none ↦ ch
  | some img ↦
      if any_row (is_peer peer) ch.remote_video
      then record ch { frames = ch.frames ++ (peer, img) ∷ [] }
      else ch
]

unfoldable pub on_header : Codec → String → Bytes → Channel → Channel
on_header c peer header ch = elim (c.decode_header header) [
  | none ↦ ch
  | some (name, size) ↦ record ch {
    rx_state = insert peer (record { name = name; size = size; buf = [] }) ch.rx_state;
  }
]

unfoldable pub on_chunk : String → Bytes → Channel → Channel
on_chunk peer bytes ch = elim (lookup peer ch.rx_state) [
  | none ↦ ch
  | some rx ↦ record ch { rx_state = insert peer (record rx { buf = rx.buf ++ bytes }) ch.rx_state }
]

unfoldable pub on_end : String → Channel → Channel
on_end peer ch = elim (lookup peer ch.rx_state) [
  | none ↦ record ch { rx_state = erase peer ch.rx_state }
  | some rx ↦ record ch {
    rx_state = erase peer ch.rx_state;
    files =
        if ch.has_on_file
        then ch.files
          ++ record { peer = peer; name = rx.name; size = rx.size; content = rx.buf } ∷ []
        else ch.files;
  }
]

-- The handler for a message that is not empty.
unfoldable pub on_frame : Codec → String → ℕ → Bytes → Channel → Channel
unfolding has_prefix cut_line on_video on_header on_chunk on_end
on_frame c peer first rest ch =
    let bytes = first ∷ rest in
    if has_prefix vid bytes
    then elim (cut_line bytes) [ none ↦ ch | some (before, after) ↦ on_video c peer after ch ]
    else if has_prefix hdr bytes
    then elim (cut_line bytes) [
      | none ↦ ch
      | some (before, after) ↦ on_header c peer (drop_bytes 3 before) ch
    ]
    else if nat_eq first b'D'
    then on_chunk peer rest ch
    else if has_prefix end_mark bytes
    then on_end peer ch
    else ch

unfoldable pub on_message : Codec → String → Bytes → Channel → Channel
unfolding on_frame
on_message c peer [] ch = ch
on_message c peer (first ∷ rest) ch = on_frame c peer first rest ch

-- The messages of a data channel, in order
unfoldable pub receive : Codec → String → List Bytes → Channel → Channel
unfolding on_message
receive c peer [] ch = ch
receive c peer (m ∷ ms) ch = receive c peer ms (on_message c peer m ch)

abbrev pub chunk_size : ℕ
chunk_size = 0x4000

-- The loop over the data: it goes on while some is left, and each round takes some.
unfoldable pub chunks : ℕ → Bytes → List Bytes
unfolding limit drop_bytes
chunks zero bytes = []
chunks (suc fuel) [] = []
chunks (suc fuel) (b ∷ bytes) =
    limit chunk_size (b ∷ bytes) ∷ chunks fuel (drop_bytes chunk_size (b ∷ bytes))

unfoldable pub header_frame : Codec → String → Bytes → Bytes
header_frame c name bytes = hdr ++ (c.encode_header name (length bytes) ++ 10 ∷ [])

-- The frames that SendFile sends when no Send fails: a byte is left for each round of fuel.
unfoldable pub file_frames : Codec → String → Bytes → List Bytes
unfolding header_frame chunks
file_frames c name bytes =
    header_frame c name bytes
    ∷ (map (λ chunk. b'D' ∷ chunk) (chunks (length bytes) bytes) ++ end_mark ∷ [])

-- Sends in order, up to the first that fails; the outcome is what the nth Send returns.
unfoldable pub send_each : (ℕ → Option String) → ℕ → List Bytes → Result (Unit {0}) × List Bytes
send_each outcome n [] = (ok tt, [])
send_each outcome n (frame ∷ more) =
    let rest = send_each outcome (suc n) more in
    elim (outcome n) [ some e ↦ (err e, []) | none ↦ (rest.0, frame ∷ rest.1) ]

-- SendFile, where `opened` says whether there is a data channel to the peer.
unfoldable pub send_file :
    Codec → Bool → (ℕ → Option String) → String → Bytes → Result (Unit {0}) × List Bytes
unfolding send_each file_frames
send_file c opened outcome name bytes =
    if opened
    then send_each outcome 0 (file_frames c name bytes)
    else (err "no open DataChannel", [])
