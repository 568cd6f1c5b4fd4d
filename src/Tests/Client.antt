-- ===== src/Tests/Client.antt =====
-- The theorems on the desktop client's messages, calls and files at concrete inputs: a box that writes
-- the length of its text stands for the one that seals.
use skype7_reborn.Prelude.{
  ℕ, suc, ◌+◌, ◌*◌, ◌-◌, ◌≤◌, String, true, false, Option, none, some, List, [], ◌∷◌, ◌++◌, ◌≡◌,
  ◌⊎◌, refl,
}
use skype7_reborn.Prelude.Int.{ℤ, pos, negsuc}
use skype7_reborn.Prelude.Dict.{lookup}
use skype7_reborn.Prelude.Text.{len}
use skype7_reborn.Wire.{NexusMessage, MsgType, blank}
use skype7_reborn.Client.Ulaw.{linear_to_ulaw, ulaw_to_linear, encode_pcmu_frame, decode_pcmu_frame}
use skype7_reborn.Client.Ulaw.RoundTrip.{
  ulaw_to_linear-linear_to_ulaw, encode_pcmu_frame-decode_pcmu_frame, signed_as, clipped,
}
use skype7_reborn.Client.Crypto.{Key, Box, fingerprint}
use skype7_reborn.Client.App.{PhazeApp, Host, KeyPin}
use skype7_reborn.Client.App.Keys.{pinned}
use skype7_reborn.Client.App.Sending.{send_message, seal_message, transmit}
use skype7_reborn.Client.App.Inbox.{dispatch, handle_incoming_message}
use skype7_reborn.Client.App.Trust.{ArePinned}
use skype7_reborn.Client.App.Inbox.Pins.{handle_incoming_message-ArePinned}
use skype7_reborn.Prelude.Table.Rows.{Every}
use skype7_reborn.Client.App.Delivery.{is_byte, handle_incoming_message-seal_message}
use skype7_reborn.Client.Transfer.{Codec, Channel, receive, send_file}
use skype7_reborn.Client.Transfer.Whole.{receive-send_file}
use skype7_reborn.Client.Stun.{parse_stun_mapped_address}
use skype7_reborn.Client.Stun.Total.{parse_stun_mapped_address-IsThere}
use skype7_reborn.Client.EndToEnd.{handle_msg-seal_message}
use skype7_reborn.Handlers.Chat.{handle_msg}
use skype7_reborn.Tests.Data.{morning, two_online, three_users}

ulaw_to_linear-linear_to_ulaw_example :
    (n : ℕ) × (ulaw_to_linear (linear_to_ulaw (negsuc 999)) ≡ signed_as (negsuc 999) n)
    × (32 * (n - clipped (negsuc 999)) ≤ clipped (negsuc 999) + 132)
    × (32 * (clipped (negsuc 999) - n) ≤ clipped (negsuc 999) + 132)
ulaw_to_linear-linear_to_ulaw_example = ulaw_to_linear-linear_to_ulaw (negsuc 999)

encode_pcmu_frame-decode_pcmu_frame_example :
    encode_pcmu_frame (decode_pcmu_frame (0 ∷ 128 ∷ 255 ∷ [])) ≡ 0 ∷ 128 ∷ 255 ∷ []
encode_pcmu_frame-decode_pcmu_frame_example =
    encode_pcmu_frame-decode_pcmu_frame (0 ∷ 128 ∷ 255 ∷ []) (refl, (refl, (refl, tt)))

-- The box seals a text as its length, and opens a length as one of two texts.
abbrev text_of : List ℕ → Option String
text_of (suc n ∷ []) = some "hi"
text_of _ = some ""

abbrev box : Box
box = record {
  seal = λ nonce plain their own. len plain ∷ [];
  open_sealed = λ nonce sealed their own. text_of sealed;
  sum256 = λ bs. bs;
}

abbrev nonce : List ℕ
nonce =
    1 ∷ 2 ∷ 3 ∷ 4 ∷ 5 ∷ 6 ∷ 7 ∷ 8 ∷ 9 ∷ 10 ∷ 11 ∷ 12 ∷ 13 ∷ 14 ∷ 15 ∷ 16 ∷ 17 ∷ 18 ∷ 19 ∷ 20 ∷ 21
    ∷ 22 ∷ 23 ∷ 24 ∷ []

nonce_bytes : Every is_byte nonce
nonce_bytes = (
  refl,
  (
    refl,
    (
      refl,
      (
        refl,
        (
          refl,
          (
            refl,
            (
              refl,
              (
                refl,
                (
                  refl,
                  (
                    refl,
                    (
                      refl,
                      (
                        refl,
                        (
                          refl,
                          (
                            refl,
                            (
                              refl,
                              (
                                refl,
                                (refl, (refl, (refl, (refl, (refl, (refl, (refl, (refl, tt)))))))),
                              ),
                            ),
                          ),
                        ),
                      ),
                    ),
                  ),
                ),
              ),
            ),
          ),
        ),
      ),
    ),
  ),
)

abbrev host : Host
host = record {
  box = box;
  now = 7;
  nonce = λ f. some nonce;
  connected = true;
  p2p = false;
  fails = λ s. false;
}

abbrev key_a : Key
key_a = 1 ∷ []

abbrev key_b : Key
key_b = 2 ∷ []

abbrev app : String → Key → String → Key → PhazeApp
app user own peer key = record {
  username = user;
  session_token = "";
  server_address = "";
  keyring = [];
  status = "Online";
  pub_key = some own;
  priv_key = some own;
  peer_keys = (peer, key) ∷ [];
  convo_members = [];
  accounts = [];
  contacts = [];
  key_pins =
      record {
        skypename = peer;
        fingerprint = fingerprint box key;
        public_key = key;
        first_seen = 3;
      }
      ∷ [];
  messages = [];
  conversations = [];
  friends = [];
  discovered = [];
  pending_inbound = [];
  unread_counts = [];
  chat_logs = [];
  chat_typing_labels = [];
  call_windows = [];
  ice_servers = none;
  auth_chan = none;
  main_window = true;
  acts = [];
}

abbrev greeting : NexusMessage
greeting = record (blank MsgType.msg) { sender = "alice"; recipient = "bob"; body = "hi" }

-- Nobody's key is known yet.
abbrev stranger : PhazeApp
stranger = record (app "alice" key_a "bob" key_b) { peer_keys = []; key_pins = [] }

stranger-ArePinned : ArePinned box stranger
unfolding lookup
stranger-ArePinned peer pk h = absurd (none_is_some h)
  where
    none_is_some : {A : Type 0} {a : A} → Path (Option A) none (some a) → ⊥
    none_is_some e = cc

abbrev long_key : Key
long_key = 1 ∷ 2 ∷ 3 ∷ 4 ∷ 5 ∷ 6 ∷ 7 ∷ 8 ∷ nonce

abbrev hello : NexusMessage
hello = record (blank MsgType.presence) { sender = "bob"; status = "Online"; public_key = long_key }

handle_incoming_message-ArePinned_example :
    ((lookup "bob" (handle_incoming_message host hello stranger).peer_keys ≡ none)
      ⊎ ((pk : Key) × (lookup "bob" (handle_incoming_message host hello stranger).peer_keys
            ≡ some pk)
          × (p : KeyPin) × (pinned "bob" (handle_incoming_message host hello stranger) ≡ some p)
          × (p.fingerprint ≡ fingerprint box pk)))
    × ((pinned "bob" stranger ≡ none)
        ⊎ (pinned "bob" (handle_incoming_message host hello stranger) ≡ pinned "bob" stranger))
handle_incoming_message-ArePinned_example =
    handle_incoming_message-ArePinned host hello stranger "bob" stranger-ArePinned

handle_incoming_message-seal_message_example :
    (send_message host greeting (app "alice" key_a "bob" key_b)
      ≡ transmit host
          (seal_message host (app "alice" key_a "bob" key_b) greeting)
          (app "alice" key_a "bob" key_b))
    × (handle_incoming_message host
          (seal_message host (app "alice" key_a "bob" key_b) greeting)
          (app "bob" key_b "alice" key_a)
        ≡ dispatch host MsgType.msg greeting (app "bob" key_b "alice" key_a))
unfolding blank lookup
handle_incoming_message-seal_message_example =
    handle_incoming_message-seal_message host host (app "alice" key_a "bob" key_b)
      (app "bob" key_b "alice" key_a) greeting key_a key_a key_b key_b
      (nonce, refl, refl, nonce_bytes, (refl, tt), refl)
      (nonce, refl, refl, nonce_bytes, (refl, tt), refl)
      (nonce, refl, refl, nonce_bytes, (refl, tt), refl) refl refl refl refl refl refl refl

abbrev codec : Codec
codec = record {
  encode_header = λ name size. size ∷ [];
  decode_header = λ bs. one_size bs;
  decode_jpeg = λ bs. some bs;
}
  where
    one_size : List ℕ → Option (String × ℤ)
    one_size (n ∷ []) = some ("a.txt", pos n)
    one_size _ = none

abbrev idle : Channel
idle = record { rx_state = []; remote_video = []; frames = []; has_on_file = true; files = [] }

receive-send_file_example :
    ((receive codec "bob" (send_file codec true (λ n. none) "a.txt" (5 ∷ 6 ∷ [])).1 idle).files
      ≡ record { peer = "bob"; name = "a.txt"; size = pos 2; content = 5 ∷ 6 ∷ [] } ∷ [])
    × (lookup "bob"
          (receive codec "bob"
            (send_file codec true (λ n. none) "a.txt" (5 ∷ 6 ∷ [])).1
            idle).rx_state
        ≡ none)
unfolding send_file
receive-send_file_example =
    receive-send_file codec true (λ n. none) "bob" "a.txt" (5 ∷ 6 ∷ []) idle ((refl, tt), refl) refl

parse_stun_mapped_address-IsThere_example :
    (text : String) × (parse_stun_mapped_address (long_key ++ long_key) ≡ some text)
parse_stun_mapped_address-IsThere_example = parse_stun_mapped_address-IsThere (long_key ++ long_key)

handle_msg-seal_message_example :
    ((handle_msg morning 1
        (seal_message host (app "alice" key_a "bob" key_b) greeting)
        (two_online three_users)).out
      ≡ (2, seal_message host (app "alice" key_a "bob" key_b) greeting) ∷ [])
    × ((handle_incoming_message host
          (seal_message host (app "alice" key_a "bob" key_b) greeting)
          (app "bob" key_b "alice" key_a)).messages
        ≡ record { chatname = "alice"; author = "alice"; body_xml = "hi"; timestamp = 7; type = 61 }
          ∷ [])
unfolding blank lookup skype7_reborn.Social.Blocks.is_blocked skype7_reborn.Prelude.Table.any_row
    skype7_reborn.Server.new_server skype7_reborn.Db.empty_db skype7_reborn.Prelude.Table.insert_row
handle_msg-seal_message_example =
    handle_msg-seal_message morning 1 2 (two_online three_users) host host
      (app "alice" key_a "bob" key_b) (app "bob" key_b "alice" key_a) greeting key_a key_a key_b
      key_b (nonce, refl, refl, nonce_bytes, (refl, tt), refl)
      (nonce, refl, refl, nonce_bytes, (refl, tt), refl)
      (nonce, refl, refl, nonce_bytes, (refl, tt), refl) refl refl refl refl refl refl refl refl
      refl refl refl refl refl refl refl
