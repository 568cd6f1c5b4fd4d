-- ===== src/Client/App/Sending.antt =====
-- The sending side of native_client/main.go: encryptForPeer, decryptFromPeer, SendMessage,
-- requestPeerKey, handleSearch.
use skype7_reborn.Prelude.{
  String, Bool, true, false, not, ◌||◌, Option, none, some, List, ℕ, ◌==◌, if◌then◌else◌,
}
use skype7_reborn.Prelude.Dict.{lookup}
use skype7_reborn.Prelude.Text.{append, starts_with, len, hex_encode}
use skype7_reborn.Prelude.Hex.{hex_decode}
use skype7_reborn.Wire.{NexusMessage, MsgType, blank}
use skype7_reborn.Client.Crypto.{Key, encrypt, decrypt}
use skype7_reborn.Client.App.{
  PhazeApp, Host, Field, in_body, in_sdp, in_candidate, write, send_signal, play_sound, act,
}
use Prim.Native.String.{slice}

unfoldable pub e2ee_text : Option (List ℕ) → String → String
e2ee_text none plain = plain
e2ee_text (some bytes) plain = append "E2EE:" (hex_encode bytes)

unfoldable pub encrypt_for_peer : Host → PhazeApp → Field → String → String → String
unfolding e2ee_text
encrypt_for_peer h s field plain recipient =
    if plain == "" || recipient == "" then plain else elim s.priv_key [
      | none ↦ plain
      | some priv ↦ elim (lookup recipient s.peer_keys) [
        | none ↦ plain
        | some peer_pub ↦ e2ee_text (encrypt h.box (h.nonce field) plain peer_pub priv) plain
      ]
    ]

-- The text of what Decrypt returns, or "" where it fails.
unfoldable pub text_or_empty : Option String → String
text_or_empty none = ""
text_or_empty (some plain) = plain

unfoldable pub decrypt_hex : Host → String → Key → Key → String
unfolding text_or_empty
decrypt_hex h hex peer_pub priv = elim (hex_decode hex) [
  | none ↦ ""
  | some encrypted ↦ text_or_empty (decrypt h.box encrypted peer_pub priv)
]

unfoldable pub decrypt_from_peer : Host → PhazeApp → String → String → String
unfolding decrypt_hex
decrypt_from_peer h s field sender =
    if not (starts_with field "E2EE:") then field else elim s.priv_key [
      | none ↦ ""
      | some priv ↦ elim (lookup sender s.peer_keys) [
        | none ↦ ""
        | some peer_pub ↦ decrypt_hex h (slice field 5 (len field)) peer_pub priv
      ]
    ]

unfoldable pub is_msg : MsgType → Bool
is_msg MsgType.msg = true
is_msg _ = false

-- The second half of SendMessage: the connection, or else the peer-to-peer network.
unfoldable pub transmit : Host → NexusMessage → PhazeApp → PhazeApp
unfolding act is_msg
transmit h msg s =
    if h.connected
    then (if is_msg msg.type
        then act (play_sound "MessageOutgoing.wav") (act (write msg) s)
        else act (write msg) s)
    else if h.p2p
    then act (send_signal msg.recipient msg) s
    else s

-- The types whose content is for the recipient only.
unfoldable pub needs_crypto : MsgType → Bool
needs_crypto MsgType.msg = true
needs_crypto MsgType.call_offer = true
needs_crypto MsgType.call_answer = true
needs_crypto MsgType.ice_candidate = true
needs_crypto _ = false

-- requestPeerKey: its call of SendMessage has nothing to seal and no type that asks for a key again.
unfoldable pub request_peer_key : Host → String → PhazeApp → PhazeApp
unfolding transmit blank
request_peer_key h peer s =
    transmit h (record (blank MsgType.key_request) { sender = s.username; recipient = peer }) s

unfoldable pub seal_message : Host → PhazeApp → NexusMessage → NexusMessage
unfolding encrypt_for_peer
seal_message h s msg = record msg {
  body = encrypt_for_peer h s in_body msg.body msg.recipient;
  sdp = encrypt_for_peer h s in_sdp msg.sdp msg.recipient;
  candidate = encrypt_for_peer h s in_candidate msg.candidate msg.recipient;
}

-- `s.PubKey != nil && msg.Recipient != ""`
unfoldable pub may_seal : PhazeApp → NexusMessage → Bool
may_seal s msg = elim s.pub_key [ none ↦ false | some key ↦ not (msg.recipient == "") ]

unfoldable pub send_message : Host → NexusMessage → PhazeApp → PhazeApp
unfolding transmit seal_message needs_crypto request_peer_key may_seal
send_message h msg s =
    if not (may_seal s msg) then transmit h msg s else elim (lookup msg.recipient s.peer_keys) [
      | none ↦
          if needs_crypto msg.type
          then transmit h msg (request_peer_key h msg.recipient s)
          else transmit h msg s
      | some key ↦ transmit h (seal_message h s msg) s
    ]

unfoldable pub handle_search : Host → String → PhazeApp → PhazeApp
unfolding send_message blank
handle_search h query s =
    if query == ""
    then s
    else send_message h (record (blank MsgType.search) { sender = s.username; body = query }) s
