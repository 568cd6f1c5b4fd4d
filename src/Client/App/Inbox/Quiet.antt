-- ===== src/Client/App/Inbox/Quiet.antt =====
-- Proofs that the cases of HandleIncomingMessage other than presence leave the keys of peers, and their
-- pins, as they are.
use skype7_reborn.Prelude.{
  ℕ, String, false, Option, none, some, List, [], ◌∷◌, ◌==◌, if◌then◌else◌, refl, ◌∙◌, arith,
}
use skype7_reborn.Wire.{NexusMessage, TurnConfig}
use skype7_reborn.Client.App.{PhazeApp, Host, act, Bubble, play_sound}
use skype7_reborn.Prelude.Text.{append}
use skype7_reborn.Client.App.Sending.{transmit, send_message, request_peer_key, seal_message}
use skype7_reborn.Client.App.Contacts.{insert_contact, delete_contact, show_friend_request_dialog}
use skype7_reborn.Client.App.Trust.{SameKeys}
use skype7_reborn.Client.App.Results.{
  set_ice_servers, on_auth_result, on_totp_result, on_qr_login_result, error_or, error_only,
  on_phone_link_result,
}
use skype7_reborn.Client.App.Messages.{
  insert_message, show_in_chat, on_msg, on_typing, on_convo_info, on_convo_msg, on_convo_left,
}
use skype7_reborn.Client.App.Events.{
  online_sound, on_key_request, on_friend_request, ask_all, on_call_end, incoming_call,
}

pub set_ice_servers-SameKeys :
    (t : Option TurnConfig) (s : PhazeApp) → SameKeys s (set_ice_servers t s)
unfolding set_ice_servers
set_ice_servers-SameKeys none s = (refl, refl)
set_ice_servers-SameKeys (some t) s = (refl, refl)

pub on_auth_result-SameKeys :
    (msg : NexusMessage) (s : PhazeApp) → SameKeys s (on_auth_result msg s)
unfolding on_auth_result act
on_auth_result-SameKeys msg s = ground (arith, set_ice_servers-SameKeys msg.turn_config)

pub on_totp_result-SameKeys :
    (msg : NexusMessage) (s : PhazeApp) → SameKeys s (on_totp_result msg s)
unfolding on_totp_result act
on_totp_result-SameKeys msg s = ground arith

pub on_qr_login_result-SameKeys :
    (msg : NexusMessage) (s : PhazeApp) → SameKeys s (on_qr_login_result msg s)
unfolding on_qr_login_result act
on_qr_login_result-SameKeys msg s = ground arith

pub error_only-SameKeys : (msg : NexusMessage) (s : PhazeApp) → SameKeys s (error_only msg s)
unfolding error_only act
error_only-SameKeys msg s = ground arith

pub on_phone_link_result-SameKeys :
    (msg : NexusMessage) (s : PhazeApp) → SameKeys s (on_phone_link_result msg s)
unfolding on_phone_link_result act
on_phone_link_result-SameKeys msg s = ground arith

pub online_sound-SameKeys : (msg : NexusMessage) (s : PhazeApp) → SameKeys s (online_sound msg s)
unfolding online_sound act
online_sound-SameKeys msg s = ground arith

pub on_call_end-SameKeys : (msg : NexusMessage) (s : PhazeApp) → SameKeys s (on_call_end msg s)
unfolding on_call_end act
on_call_end-SameKeys msg s = ground arith

pub incoming_call-SameKeys : (msg : NexusMessage) (s : PhazeApp) → SameKeys s (incoming_call msg s)
unfolding incoming_call act
incoming_call-SameKeys msg s = ground arith

pub on_typing-SameKeys : (msg : NexusMessage) (s : PhazeApp) → SameKeys s (on_typing msg s)
unfolding on_typing act
on_typing-SameKeys msg s = ground arith

pub on_convo_left-SameKeys : (msg : NexusMessage) (s : PhazeApp) → SameKeys s (on_convo_left msg s)
unfolding on_convo_left act
on_convo_left-SameKeys msg s = ground arith

pub error_or-SameKeys :
    (success : String) (msg : NexusMessage) (s : PhazeApp) → SameKeys s (error_or success msg s)
unfolding error_or act
error_or-SameKeys success msg s = ground arith

pub show_friend_request_dialog-SameKeys :
    (requester : String) (s : PhazeApp) → SameKeys s (show_friend_request_dialog requester s)
unfolding show_friend_request_dialog act
show_friend_request_dialog-SameKeys requester s = ground arith

pub on_friend_request-SameKeys :
    (msg : NexusMessage) (s : PhazeApp) → SameKeys s (on_friend_request msg s)
unfolding on_friend_request act
on_friend_request-SameKeys msg s = show_friend_request_dialog-SameKeys msg.sender _

pub transmit-SameKeys :
    (h : Host) (msg : NexusMessage) (s : PhazeApp) → SameKeys s (transmit h msg s)
unfolding transmit act
transmit-SameKeys h msg s = ground arith

pub insert_message-SameKeys :
    (h : Host) (chat author body : String) (type : ℕ) (s : PhazeApp)
    → SameKeys s (insert_message h chat author body type s)
unfolding insert_message act
insert_message-SameKeys h chat author body type s = ground arith

pub show_in_chat-SameKeys :
    (chat : String) (b : Bubble) (title : String) (s : PhazeApp)
    → SameKeys s (show_in_chat chat b title s)
unfolding show_in_chat act
show_in_chat-SameKeys chat b title s = ground arith

pub SameKeys-trans : (a b c : PhazeApp) → SameKeys a b → SameKeys b c → SameKeys a c
SameKeys-trans a b c (p, q) (p', q') = (p' ∙ p, q' ∙ q)

pub send_message-SameKeys :
    (h : Host) (msg : NexusMessage) (s : PhazeApp) → SameKeys s (send_message h msg s)
unfolding send_message request_peer_key
send_message-SameKeys h msg s = ground (
  arith,
  transmit-SameKeys h msg s,
  transmit-SameKeys h _ s,
  transmit-SameKeys h msg (request_peer_key h msg.recipient s),
  transmit-SameKeys h (seal_message h s msg) s,
)

pub on_key_request-SameKeys :
    (h : Host) (msg : NexusMessage) (s : PhazeApp) → SameKeys s (on_key_request h msg s)
unfolding on_key_request
on_key_request-SameKeys h msg s = ground (arith, send_message-SameKeys h _ s)

pub on_msg-SameKeys : (h : Host) (msg : NexusMessage) (s : PhazeApp) → SameKeys s (on_msg h msg s)
unfolding on_msg act
on_msg-SameKeys h msg s =
    let heard = act (play_sound "MessageIncoming.wav") s in
    let text = if msg.body == "" then "[Encrypted Message - Handshaking...]" else msg.body in
    let stored = insert_message h msg.sender msg.sender text 61 heard in
    SameKeys-trans s stored (on_msg h msg s)
      (insert_message-SameKeys h msg.sender msg.sender text 61 heard)
      (show_in_chat-SameKeys msg.sender (record { author = msg.sender; text = text; is_me = false })
        (append "Message from " msg.sender) stored)

pub on_convo_msg-SameKeys :
    (h : Host) (msg : NexusMessage) (s : PhazeApp) → SameKeys s (on_convo_msg h msg s)
unfolding on_convo_msg act
on_convo_msg-SameKeys h msg s =
    let heard = act (play_sound "MessageReceived.wav") s in
    let stored = insert_message h msg.convo_id msg.sender msg.body 61 heard in
    SameKeys-trans s stored (on_convo_msg h msg s)
      (insert_message-SameKeys h msg.convo_id msg.sender msg.body 61 heard)
      (show_in_chat-SameKeys msg.convo_id
        (record { author = msg.sender; text = msg.body; is_me = false })
        (append msg.sender " in group") stored)

pub on_convo_info-SameKeys :
    (h : Host) (msg : NexusMessage) (s : PhazeApp) → SameKeys s (on_convo_info h msg s)
unfolding on_convo_info
on_convo_info-SameKeys h msg s = ground arith

pub insert_contact-SameKeys :
    (h : Host) (name : String) (s : PhazeApp) → SameKeys s (insert_contact h name s)
unfolding insert_contact
insert_contact-SameKeys h name s = ground arith

pub delete_contact-SameKeys :
    (h : Host) (name : String) (s : PhazeApp) → SameKeys s (delete_contact h name s)
unfolding delete_contact
delete_contact-SameKeys h name s = ground arith

pub ask_all-SameKeys : (rs : List String) (s : PhazeApp) → SameKeys s (ask_all rs s)
unfolding ask_all
ask_all-SameKeys [] s = (refl, refl)
ask_all-SameKeys (r ∷ rs) s =
    let asked = show_friend_request_dialog r s in
    SameKeys-trans s asked (ask_all rs asked) (show_friend_request_dialog-SameKeys r s)
      (ask_all-SameKeys rs asked)
