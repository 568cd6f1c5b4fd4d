-- ===== src/Client/App/Inbox.antt =====
-- HandleIncomingMessage of native_client/main.go: the fields that it opens, and the switch.
pub mod Quiet
pub mod Pins
use skype7_reborn.Prelude.{◌==◌, if◌then◌else◌}
use skype7_reborn.Prelude.Text.{append}
use skype7_reborn.Wire.{NexusMessage, MsgType}
use skype7_reborn.Client.App.{
  PhazeApp, Host, play_sound, notification, show_information, show_error, act,
}
use skype7_reborn.Client.App.Sending.{decrypt_from_peer}
use skype7_reborn.Client.App.Contacts.{
  load_friends, update_friend_status, update_friend_profile, delete_contact,
}
use skype7_reborn.Client.App.Results.{
  on_auth_result, on_totp_result, on_qr_login_result, error_or, error_only, on_phone_link_result,
}
use skype7_reborn.Client.App.Messages.{
  on_msg, on_typing, on_convo_info, on_convo_created, on_convo_msg, on_convo_left,
}
use skype7_reborn.Client.App.Events.{
  online_sound, on_presence, on_key_request, on_friend_request, on_friend_accepted, ask_all,
  on_call_end, incoming_call,
}

unfoldable pub decrypt_fields : Host → PhazeApp → NexusMessage → NexusMessage
decrypt_fields h s msg = if msg.sender == "" then msg else record msg {
  body = if msg.body == "" then "" else decrypt_from_peer h s msg.body msg.sender;
  sdp = if msg.sdp == "" then "" else decrypt_from_peer h s msg.sdp msg.sender;
  candidate = if msg.candidate == "" then "" else decrypt_from_peer h s msg.candidate msg.sender;
}

-- The switch on the type; a type that is left out is logged.
unfoldable pub dispatch : Host → MsgType → NexusMessage → PhazeApp → PhazeApp
unfolding on_auth_result on_totp_result on_qr_login_result error_or error_only on_phone_link_result
    on_msg on_typing on_presence on_key_request update_friend_status update_friend_profile
    online_sound on_friend_request on_friend_accepted ask_all on_call_end on_convo_info
    on_convo_created on_convo_msg on_convo_left delete_contact load_friends act
dispatch h MsgType.auth_result msg s = on_auth_result msg s
dispatch h MsgType.totp_result msg s = on_totp_result msg s
dispatch h MsgType.qr_login_result msg s = on_qr_login_result msg s
dispatch h MsgType.forgot_password_result msg s =
    act (show_information "If an account matches, a reset link has been emailed.") s
dispatch h MsgType.reset_password_result msg s =
    error_or "Password reset. You can log in with your new password." msg s
dispatch h MsgType.verify_result msg s = error_or "Email verified. You can now sign in." msg s
dispatch h MsgType.update_result msg s = error_only msg s
dispatch h MsgType.phone_link_result msg s = on_phone_link_result msg s
dispatch h MsgType.pstn_status msg s = error_only msg s
dispatch h MsgType.block_result msg s = error_only msg s
dispatch h MsgType.report_result msg s = error_or "Report received. Our team will review it." msg s
dispatch h MsgType.convo_error msg s = act (show_error (append "group chat: " msg.error)) s
dispatch h MsgType.msg msg s = on_msg h msg s
dispatch h MsgType.typing msg s = on_typing msg s
dispatch h MsgType.search_results msg s = record s { discovered = msg.results }
dispatch h MsgType.presence msg s = on_presence h msg s
dispatch h MsgType.key_request msg s = on_key_request h msg s
dispatch h MsgType.friend_status msg s =
    online_sound msg (update_friend_status h msg.sender msg.status s)
dispatch h MsgType.profile_update msg s =
    update_friend_profile h msg.sender msg.display_name msg.mood s
dispatch h MsgType.friend_request msg s = on_friend_request msg s
dispatch h MsgType.friend_accepted msg s = on_friend_accepted h msg s
dispatch h MsgType.pending_requests msg s =
    ask_all msg.results (record s { pending_inbound = msg.results })
dispatch h MsgType.call_offer msg s = incoming_call msg (act (play_sound "CallIncoming.wav") s)
dispatch h MsgType.call_reject msg s = on_call_end msg s
dispatch h MsgType.call_end msg s = on_call_end msg s
dispatch h MsgType.call_error msg s = act (notification "Call Failed" msg.error) s
dispatch h MsgType.kicked msg s = act (notification "Phaze" msg.body) s
dispatch h MsgType.friend_removed msg s = load_friends h (delete_contact h msg.sender s)
dispatch h MsgType.convo_info msg s = on_convo_info h msg s
dispatch h MsgType.convo_created msg s = on_convo_created h msg s
dispatch h MsgType.convo_msg msg s = on_convo_msg h msg s
dispatch h MsgType.convo_left msg s = on_convo_left msg s
dispatch h _ msg s = s

unfoldable pub handle_incoming_message : Host → NexusMessage → PhazeApp → PhazeApp
unfolding decrypt_fields dispatch
handle_incoming_message h msg s = dispatch h msg.type (decrypt_fields h s msg) s
