-- ===== src/Client/App/Events.antt =====
-- The cases of HandleIncomingMessage, native_client/main.go, on presence, keys, friends and calls, and the
-- window of showIncomingCallDialog.
use skype7_reborn.Prelude.{
  String, Bool, none, some, List, [], ◌∷◌, ◌++◌, ◌==◌, nat_eq, length, if◌then◌else◌,
}
use skype7_reborn.Prelude.Table.{any_row, delete_where}
use skype7_reborn.Prelude.Text.{append}
use skype7_reborn.Wire.{NexusMessage, MsgType, blank}
use skype7_reborn.Client.Crypto.{fingerprint}
use skype7_reborn.Client.App.{
  PhazeApp, Host, play_sound, notification, incoming_call_dialog, close_call_window, act,
}
use skype7_reborn.Client.App.Sending.{send_message}
use skype7_reborn.Client.App.Keys.{accept_peer_key}
use skype7_reborn.Client.App.Contacts.{
  load_friends, update_friend_status, insert_contact, show_friend_request_dialog,
}

unfoldable pub online_sound : NexusMessage → PhazeApp → PhazeApp
unfolding act
online_sound msg s = if msg.status == "Online" then act (play_sound "FriendOnline.wav") s else s

unfoldable pub on_presence : Host → NexusMessage → PhazeApp → PhazeApp
unfolding update_friend_status accept_peer_key online_sound
on_presence h msg s =
    let known = update_friend_status h msg.sender msg.status s in
    online_sound msg (
      if nat_eq (length msg.public_key) 32
      then accept_peer_key h msg.sender msg.public_key msg.key_fingerprint known
      else known)

unfoldable pub on_key_request : Host → NexusMessage → PhazeApp → PhazeApp
unfolding send_message blank
on_key_request h msg s = elim s.pub_key [
  | none ↦ s
  | some key ↦
      if msg.sender == ""
      then s
      else send_message h
          (record (blank MsgType.presence) {
            sender = s.username;
            recipient = msg.sender;
            status = s.status;
            public_key = key;
            key_fingerprint = fingerprint h.box key;
          })
          s
]

unfoldable pub on_friend_request : NexusMessage → PhazeApp → PhazeApp
unfolding act show_friend_request_dialog
on_friend_request msg s =
    let heard = act (play_sound "MessageReceived.wav") s in
    show_friend_request_dialog msg.sender (
      act (notification "Friend Request" (append msg.sender " wants to add you as a contact"))
        (record heard { pending_inbound = heard.pending_inbound ++ msg.sender ∷ [] }))

unfoldable pub on_friend_accepted : Host → NexusMessage → PhazeApp → PhazeApp
unfolding act insert_contact load_friends
on_friend_accepted h msg s =
    act (notification "Friend Added" (append msg.sender " accepted your friend request"))
      (load_friends h (insert_contact h msg.sender (act (play_sound "MessageReceived.wav") s)))

unfoldable pub ask_all : List String → PhazeApp → PhazeApp
unfolding show_friend_request_dialog
ask_all [] s = s
ask_all (r ∷ rs) s = ask_all rs (show_friend_request_dialog r s)

unfoldable pub is_window : String → String → Bool
is_window name w = w == name

-- CallWindows is a map; closing the window runs what openCallWindow has set on it.
unfoldable pub on_call_end : NexusMessage → PhazeApp → PhazeApp
unfolding act is_window
on_call_end msg s =
    let heard = act (play_sound "CallHangup.wav") s in
    if any_row (is_window msg.sender) heard.call_windows
    then record (act (close_call_window msg.sender) heard) {
      call_windows = delete_where (is_window msg.sender) heard.call_windows;
    }
    else heard

-- The incoming call's window, with its own sound.
unfoldable pub incoming_call : NexusMessage → PhazeApp → PhazeApp
unfolding act
incoming_call msg s =
    if s.main_window
    then act (incoming_call_dialog msg.sender msg.sdp) (act (play_sound "CallIncoming.wav") s)
    else s
