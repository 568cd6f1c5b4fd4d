-- ===== src/Client/App/Windows.antt =====
-- The call windows of native_client/main.go: StartCall, AnswerCall, what openCallWindow keeps and sends,
-- and the buttons of showIncomingCallDialog. The session descriptions that WebRTC makes are parameters;
-- pictures and sounds are left out.
use skype7_reborn.Prelude.{String, Bool, Option, none, some, ◌∷◌, if◌then◌else◌}
use skype7_reborn.Prelude.Table.{any_row, delete_where}
use skype7_reborn.Wire.{MsgType, blank}
use skype7_reborn.Client.App.{PhazeApp, Host, play_sound, act}
use skype7_reborn.Client.App.Sending.{send_message}
use skype7_reborn.Client.App.Events.{is_window}

unfoldable pub has_window : String → PhazeApp → Bool
unfolding is_window
has_window name s = any_row (is_window name) s.call_windows

-- s.CallWindows[name] = callWin
unfoldable pub open_call_window : String → PhazeApp → PhazeApp
unfolding is_window
open_call_window name s = record s {
  call_windows = name ∷ delete_where (is_window name) s.call_windows;
}

-- SetOnClosed
unfoldable pub close_call_window_of : Host → String → PhazeApp → PhazeApp
unfolding is_window send_message blank
close_call_window_of h name s =
    send_message h (record (blank MsgType.call_end) { sender = s.username; recipient = name })
      (record s { call_windows = delete_where (is_window name) s.call_windows })

-- A candidate that is found while an offer or an answer is made.
unfoldable pub send_candidate : Host → String → String → PhazeApp → PhazeApp
unfolding send_message blank
send_candidate h name candidate s =
    send_message h
      (record (blank MsgType.ice_candidate) {
        sender = s.username;
        recipient = name;
        candidate = candidate;
      })
      s

-- StartCall, with the offer that CreateOffer makes, if it makes one.
unfoldable pub start_call : Host → Option String → String → PhazeApp → PhazeApp
unfolding has_window open_call_window act send_message blank
start_call h offer name s = if has_window name s then s else elim offer [
  | none ↦ s
  | some sdp ↦ open_call_window name (
      act (play_sound "CallOutgoing.wav") (
        send_message h
          (record (blank MsgType.call_offer) { sender = s.username; recipient = name; sdp = sdp })
          s))
]

unfoldable pub answer_call : String → PhazeApp → PhazeApp
unfolding has_window open_call_window
answer_call name s = if has_window name s then s else open_call_window name s

-- OnAnswer, with the answer that HandleOffer makes, if it makes one.
unfoldable pub on_answer : Host → Option String → String → PhazeApp → PhazeApp
unfolding answer_call send_message blank
on_answer h answer caller s = elim answer [
  | none ↦ s
  | some sdp ↦ answer_call caller (
      send_message h
        (record (blank MsgType.call_answer) { sender = s.username; recipient = caller; sdp = sdp })
        s)
]

unfoldable pub on_reject : Host → String → PhazeApp → PhazeApp
unfolding send_message blank
on_reject h caller s =
    send_message h (record (blank MsgType.call_reject) { sender = s.username; recipient = caller })
      s
