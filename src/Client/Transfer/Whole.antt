-- ===== src/Client/Transfer/Whole.antt =====
-- Proofs that a file arrives whole.
use skype7_reborn.Prelude.{
  ℕ, String, Bool, true, Option, none, some, List, [], ◌∷◌, ◌++◌, ◌≡◌, refl, sym, ap, ◌∙◌, arith,
  if◌then◌else◌, nat_eq, length, map, is_ok, eq_refl, not,
}
use mathlib.Core.Path.{ap₂}
use skype7_reborn.Prelude.Int.{pos}
use skype7_reborn.Prelude.Dict.{lookup, insert, lookup-insert, lookup-erase}
use skype7_reborn.Prelude.Table.Rows.{Every}
use skype7_reborn.Client.Crypto.{drop_bytes}
use skype7_reborn.Client.Transfer.{
  Bytes, FileRx, Received, Codec, Channel, has_prefix, cut_line, end_mark, on_header, on_chunk,
  on_end, on_frame, on_message, receive, chunks, header_frame, file_frames, send_file,
}
use skype7_reborn.Client.Transfer.Sent.{join_bytes, join_bytes-chunks, send_file-ok}

abbrev no_newline : ℕ → Bool
no_newline b = not (nat_eq b 10)

-- What encoding/json promises of the header: it has no newline, and it is read back.
abbrev pub ReadsBack : Codec → String → ℕ → Type 0
ReadsBack c name size =
    Every no_newline (c.encode_header name size)
    × (c.decode_header (c.encode_header name size) ≡ some (name, pos size))

cut_line-append : (bs : Bytes) → Every no_newline bs → cut_line (bs ++ 10 ∷ []) ≡ some (bs, [])
unfolding cut_line
cut_line-append [] h = refl
cut_line-append (b ∷ bs) (p, h) = ground (arith, p, cut_line-append bs h)

on_header-read :
    (c : Codec) (peer name : String) (size : ℕ) (ch : Channel) (header : Bytes)
    → c.decode_header header ≡ some (name, pos size)
    → on_header c peer header ch ≡ record ch {
      rx_state = insert peer (record { name = name; size = pos size; buf = [] }) ch.rx_state;
    }
unfolding on_header
on_header-read c peer name size ch header h = cc

abbrev first_rx : String → Bytes → FileRx
first_rx name bytes = record { name = name; size = pos (length bytes); buf = [] }

abbrev started : Codec → String → String → Bytes → Channel → Channel
started c peer name bytes ch = record ch {
  rx_state = insert peer (first_rx name bytes) ch.rx_state;
}

lookup-started :
    (c : Codec) (peer name : String) (bytes : Bytes) (ch : Channel)
    → lookup peer (started c peer name bytes ch).rx_state ≡ some (first_rx name bytes)
lookup-started c peer name bytes ch =
    ground (arith, lookup-insert peer peer (first_rx name bytes) ch.rx_state, eq_refl peer)

on_message-header_frame :
    (c : Codec) (peer name : String) (bytes : Bytes) (ch : Channel)
    → ReadsBack c name (length bytes)
    → on_message c peer (header_frame c name bytes) ch ≡ started c peer name bytes ch
unfolding on_message on_frame header_frame has_prefix cut_line drop_bytes
on_message-header_frame c peer name bytes ch (clean, reads) =
    let header = c.encode_header name (length bytes) in
    cut (cut_line-append header clean) ∙ on_header-read c peer name (length bytes) ch header reads
  where
    cut :
        cut_line (c.encode_header name (length bytes) ++ 10 ∷ [])
          ≡ some (c.encode_header name (length bytes), [])
        → on_message c peer (header_frame c name bytes) ch
          ≡ on_header c peer (c.encode_header name (length bytes)) ch
    cut e = rw e

receive-append :
    (c : Codec) (peer : String) (xs ys : List Bytes) (ch : Channel)
    → receive c peer (xs ++ ys) ch ≡ receive c peer ys (receive c peer xs ch)
unfolding receive
receive-append c peer [] ys ch = refl
receive-append c peer (x ∷ xs) ys ch = receive-append c peer xs ys (on_message c peer x ch)

append_assoc : (xs ys zs : Bytes) → (xs ++ ys) ++ zs ≡ xs ++ (ys ++ zs)
append_assoc [] ys zs = refl
append_assoc (x ∷ xs) ys zs = ap (λ t. x ∷ t) (append_assoc xs ys zs)

append-nil : (xs : Bytes) → xs ++ [] ≡ xs
append-nil [] = refl
append-nil (x ∷ xs) = ap (λ t. x ∷ t) (append-nil xs)

abbrev grown : FileRx → Bytes → FileRx
grown rx bytes = record rx { buf = rx.buf ++ bytes }

lookup-on_chunk :
    (peer : String) (bytes : Bytes) (ch : Channel) (rx : FileRx)
    → lookup peer ch.rx_state ≡ some rx
    → (lookup peer (on_chunk peer bytes ch).rx_state ≡ some (grown rx bytes))
      × ((on_chunk peer bytes ch).files ≡ ch.files)
      × ((on_chunk peer bytes ch).has_on_file ≡ ch.has_on_file)
unfolding on_chunk
lookup-on_chunk peer bytes ch rx h =
    ground (arith, h, lookup-insert peer peer (grown rx bytes) ch.rx_state, eq_refl peer)

-- What the chunks add to the file that is being received.
lookup-receive :
    (c : Codec) (peer : String) (cs : List Bytes) (ch : Channel) (rx : FileRx)
    → lookup peer ch.rx_state ≡ some rx
    → (lookup peer (receive c peer (map (λ chunk. 68 ∷ chunk) cs) ch).rx_state
        ≡ some (grown rx (join_bytes cs)))
      × ((receive c peer (map (λ chunk. 68 ∷ chunk) cs) ch).files ≡ ch.files)
      × ((receive c peer (map (λ chunk. 68 ∷ chunk) cs) ch).has_on_file ≡ ch.has_on_file)
unfolding receive join_bytes on_message on_frame has_prefix
lookup-receive c peer [] ch rx h =
    (h ∙ ap (λ b. some (record rx { buf = b })) (sym (append-nil rx.buf)), refl, refl)
lookup-receive c peer (chunk ∷ cs) ch rx h =
    let (found, same, set) = lookup-on_chunk peer chunk ch rx h in
    let (later, kept, still) =
      lookup-receive c peer cs (on_chunk peer chunk ch) (grown rx chunk) found in
    (
      later ∙ ap (λ b. some (record rx { buf = b })) (append_assoc rx.buf chunk (join_bytes cs)),
      kept ∙ same,
      still ∙ set,
    )

-- The calls of OnFile with one more, if it is set.
abbrev called : Bool → Received → List Received → List Received
called is_set x files = if is_set then files ++ x ∷ [] else files

on_end-file :
    (peer : String) (ch : Channel) (rx : FileRx)
    → lookup peer ch.rx_state ≡ some rx
    → ((on_end peer ch).files
        ≡ called ch.has_on_file
            (record { peer = peer; name = rx.name; size = rx.size; content = rx.buf })
            ch.files)
      × (lookup peer (on_end peer ch).rx_state ≡ none)
unfolding on_end
on_end-file peer ch rx h = ground (arith, h, lookup-erase peer peer ch.rx_state, eq_refl peer)

-- The chunks and the end of a file whose header has come.
receive-rest :
    (c : Codec) (peer : String) (cs : List Bytes) (ch : Channel) (rx : FileRx)
    → lookup peer ch.rx_state ≡ some rx
    → ((receive c peer (map (λ chunk. 68 ∷ chunk) cs ++ end_mark ∷ []) ch).files
        ≡ called ch.has_on_file
            (record {
              peer = peer;
              name = rx.name;
              size = rx.size;
              content = rx.buf ++ join_bytes cs;
            })
            ch.files)
      × (lookup peer (receive c peer (map (λ chunk. 68 ∷ chunk) cs ++ end_mark ∷ []) ch).rx_state
          ≡ none)
unfolding receive on_message on_frame has_prefix
receive-rest c peer cs ch rx h =
    let (found, same, set) = lookup-receive c peer cs ch rx h in
    let before = receive c peer (map (λ chunk. 68 ∷ chunk) cs) ch in
    let (done, cleared) = on_end-file peer before (grown rx (join_bytes cs)) found in
    let split = receive-append c peer (map (λ chunk. 68 ∷ chunk) cs) (end_mark ∷ []) ch in
    (
      ap (λ t. t.files) split
          ∙ done
          ∙ ap₂
              (λ is_set fs.
                called is_set
                  (record {
                    peer = peer;
                    name = rx.name;
                    size = rx.size;
                    content = rx.buf ++ join_bytes cs;
                  })
                  fs)
              set same,
      ap (λ t. lookup peer t.rx_state) split ∙ cleared,
    )

receive-file_frames :
    (c : Codec) (peer name : String) (bytes : Bytes) (ch : Channel)
    → ReadsBack c name (length bytes)
    → ((receive c peer (file_frames c name bytes) ch).files
        ≡ called ch.has_on_file
            (record { peer = peer; name = name; size = pos (length bytes); content = bytes })
            ch.files)
      × (lookup peer (receive c peer (file_frames c name bytes) ch).rx_state ≡ none)
unfolding file_frames receive
receive-file_frames c peer name bytes ch h =
    let header = on_message-header_frame c peer name bytes ch h in
    let rest = map (λ chunk. 68 ∷ chunk) (chunks (length bytes) bytes) ++ end_mark ∷ [] in
    let (done, cleared) =
      receive-rest c peer (chunks (length bytes) bytes) (started c peer name bytes ch)
        (first_rx name bytes) (lookup-started c peer name bytes ch) in
    (
      ap (λ t. (receive c peer rest t).files) header
          ∙ done
          ∙ ap
              (λ b.
                called ch.has_on_file
                  (record { peer = peer; name = name; size = pos (length bytes); content = b })
                  ch.files)
              (join_bytes-chunks (length bytes) bytes (omega arith)),
      ap (λ t. lookup peer (receive c peer rest t).rx_state) header ∙ cleared,
    )

-- When SendFile reports no error, the peer's handler makes what was sent into one call of OnFile, if
-- that is set, with the file's name, its size and its bytes, whatever came before, and into no call if
-- it is not; and then it waits for no more of the file. The
-- header's JSON is read back as it was written and has no newline.
pub receive-send_file :
    (c : Codec) (opened : Bool) (outcome : ℕ → Option String) (peer name : String) (bytes : Bytes)
    (ch : Channel)
    → ReadsBack c name (length bytes)
    → is_ok (send_file c opened outcome name bytes).0 ≡ true
    → ((receive c peer (send_file c opened outcome name bytes).1 ch).files ≡ (
        if ch.has_on_file
        then ch.files
          ++ record { peer = peer; name = name; size = pos (length bytes); content = bytes } ∷ []
        else ch.files))
      × (lookup peer (receive c peer (send_file c opened outcome name bytes).1 ch).rx_state ≡ none)
receive-send_file c opened outcome peer name bytes ch h fine =
    let sent = send_file-ok c opened outcome name bytes fine in
    let (file, cleared) = receive-file_frames c peer name bytes ch h in
    (
      ap (λ fs. (receive c peer fs ch).files) sent ∙ file,
      ap (λ fs. lookup peer (receive c peer fs ch).rx_state) sent ∙ cleared,
    )
