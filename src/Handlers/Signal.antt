-- ===== src/Handlers/Signal.antt =====
-- The cases read_receipt, key_request, call_offer, call_answer, ice_candidate, call_reject, call_end.
use skype7_reborn.Prelude.{ℕ, ◌+◌, String, ◌||◌, none, some, not, ◌==◌, if◌then◌else◌}
use skype7_reborn.Prelude.Dict.{lookup}
use skype7_reborn.Prelude.Text.{append}
use skype7_reborn.World.{World}
use skype7_reborn.Wire.{NexusMessage, MsgType, blank}
use skype7_reborn.Server.{Server, send, send_to_user, user_of}
use skype7_reborn.Social.Friends.{are_friends}

unfoldable pub receipt : String → String → NexusMessage
receipt u body = record (blank MsgType.read_receipt) { sender = u; body = body }

unfoldable pub handle_read_receipt : World → ℕ → NexusMessage → Server → Server
handle_read_receipt w c m s =
    let u = user_of s c in
    if u == ""
    then s
    else if not (are_friends w u m.recipient s.db)
    then s
    else send_to_user m.recipient (receipt u m.body) s

abbrev pub count_key_request : Server → Server
count_key_request s = record s {
  metrics = record s.metrics { key_requests = s.metrics.key_requests + 1 };
}

unfoldable pub handle_key_request : World → ℕ → NexusMessage → Server → Server
handle_key_request w c m s =
    let u = user_of s c in
    if u == "" || m.recipient == ""
    then s
    else if not (are_friends w u m.recipient s.db)
    then s
    else send_to_user m.recipient (record m { sender = u }) (count_key_request s)

unfoldable pub call_error : String → NexusMessage
call_error u = record (blank MsgType.call_error) {
  body = "User is offline";
  error = append u " is not available";
}

-- call_offer, call_answer, ice_candidate: the message goes on as it came.
unfoldable pub handle_call_signal : World → ℕ → NexusMessage → Server → Server
handle_call_signal w c m s = if user_of s c == "" then s else elim (lookup m.recipient s.clients) [
  | some d ↦ send d m s
  | none ↦ send c (call_error m.recipient) s
]

-- call_reject, call_end
unfoldable pub handle_call_end : World → ℕ → NexusMessage → Server → Server
handle_call_end w c m s = if user_of s c == "" then s else send_to_user m.recipient m s
