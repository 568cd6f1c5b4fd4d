-- ===== src/Integrity/Steps.antt =====
-- The constraints of the tables under the switch, the read loop and the reachable states.
use skype7_reborn.Prelude.{ℕ, arith}
use skype7_reborn.World.{World}
use skype7_reborn.Wire.{NexusMessage, MsgType}
use skype7_reborn.Server.{Server}
use skype7_reborn.Db.Keys.{IsWellFormed}
use skype7_reborn.Handlers.Login.{disconnect}
use skype7_reborn.Loop.{
  dispatch, receive, Step, message, closed, moderated, resolved, Reach, here, next,
}
use skype7_reborn.Integrity.Moderation.{
  admin_ban_handler-IsWellFormed, admin_resolve_report_handler-IsWellFormed,
}
use skype7_reborn.Integrity.Quiet.{quiet}
use skype7_reborn.Integrity.Handlers.Login.{
  handle_auth-IsWellFormed, handle_session_auth-IsWellFormed, handle_qr_login_check-IsWellFormed,
  handle_revoke_session-IsWellFormed, handle_pstn_call-IsWellFormed,
  handle_request_phone_link-IsWellFormed, handle_verify_phone_link-IsWellFormed,
}
use skype7_reborn.Integrity.Handlers.Accounts.{
  handle_register-IsWellFormed, handle_verify_email-IsWellFormed,
  handle_resend_verification-IsWellFormed, handle_update_profile-IsWellFormed,
  handle_delete_account-IsWellFormed, handle_enable_totp-IsWellFormed,
  handle_confirm_totp-IsWellFormed, handle_disable_totp-IsWellFormed,
  handle_forgot_password-IsWellFormed, handle_reset_password-IsWellFormed,
  handle_change_password-IsWellFormed, handle_qr_login_create-IsWellFormed,
  handle_qr_login_approve-IsWellFormed,
}
use skype7_reborn.Integrity.Handlers.Chat.{
  handle_msg-IsWellFormed, handle_block-IsWellFormed, handle_unblock-IsWellFormed,
  handle_list_blocks-IsWellFormed, handle_report_abuse-IsWellFormed, handle_typing-IsWellFormed,
  handle_status_update-IsWellFormed, handle_presence-IsWellFormed, handle_search-IsWellFormed,
  handle_friend_request-IsWellFormed, handle_friend_accept-IsWellFormed,
  handle_friend_reject-IsWellFormed, handle_friend_remove-IsWellFormed,
  handle_read_receipt-IsWellFormed, handle_key_request-IsWellFormed,
  handle_call_signal-IsWellFormed, handle_call_end-IsWellFormed,
}
use skype7_reborn.Integrity.Handlers.Groups.{
  handle_convo_create-IsWellFormed, handle_convo_msg-IsWellFormed, handle_convo_leave-IsWellFormed,
  handle_server_create-IsWellFormed, handle_server_list-IsWellFormed,
  handle_server_join-IsWellFormed, handle_server_leave-IsWellFormed,
  handle_server_info-IsWellFormed, handle_channel_create-IsWellFormed,
  handle_channel_msg-IsWellFormed, handle_channel_history-IsWellFormed,
}

dispatch-IsWellFormed :
    (t : MsgType) (w : World) (c : ℕ) (m : NexusMessage) (s : Server)
    → IsWellFormed s.db
    → IsWellFormed (dispatch t w c m s).db
unfolding dispatch
dispatch-IsWellFormed MsgType.pstn_call w c m s h = handle_pstn_call-IsWellFormed w c m s h
dispatch-IsWellFormed MsgType.register w c m s h = handle_register-IsWellFormed w c m s h
dispatch-IsWellFormed MsgType.verify_email w c m s h = handle_verify_email-IsWellFormed w c m s h
dispatch-IsWellFormed MsgType.status_update w c m s h = handle_status_update-IsWellFormed w c m s h
dispatch-IsWellFormed MsgType.request_phone_link w c m s h =
    handle_request_phone_link-IsWellFormed w c m s h
dispatch-IsWellFormed MsgType.verify_phone_link w c m s h =
    handle_verify_phone_link-IsWellFormed w c m s h
dispatch-IsWellFormed MsgType.update_profile w c m s h =
    handle_update_profile-IsWellFormed w c m s h
dispatch-IsWellFormed MsgType.auth w c m s h = handle_auth-IsWellFormed w c m s h
dispatch-IsWellFormed MsgType.session_auth w c m s h = handle_session_auth-IsWellFormed w c m s h
dispatch-IsWellFormed MsgType.revoke_session w c m s h =
    handle_revoke_session-IsWellFormed w c m s h
dispatch-IsWellFormed MsgType.delete_account w c m s h =
    handle_delete_account-IsWellFormed w c m s h
dispatch-IsWellFormed MsgType.resend_verification w c m s h =
    handle_resend_verification-IsWellFormed w c m s h
dispatch-IsWellFormed MsgType.enable_totp w c m s h = handle_enable_totp-IsWellFormed w c m s h
dispatch-IsWellFormed MsgType.confirm_totp w c m s h = handle_confirm_totp-IsWellFormed w c m s h
dispatch-IsWellFormed MsgType.disable_totp w c m s h = handle_disable_totp-IsWellFormed w c m s h
dispatch-IsWellFormed MsgType.forgot_password w c m s h =
    handle_forgot_password-IsWellFormed w c m s h
dispatch-IsWellFormed MsgType.reset_password w c m s h =
    handle_reset_password-IsWellFormed w c m s h
dispatch-IsWellFormed MsgType.change_password w c m s h =
    handle_change_password-IsWellFormed w c m s h
dispatch-IsWellFormed MsgType.qr_login_create w c m s h =
    handle_qr_login_create-IsWellFormed w c m s h
dispatch-IsWellFormed MsgType.qr_login_approve w c m s h =
    handle_qr_login_approve-IsWellFormed w c m s h
dispatch-IsWellFormed MsgType.qr_login_check w c m s h =
    handle_qr_login_check-IsWellFormed w c m s h
dispatch-IsWellFormed MsgType.msg w c m s h = handle_msg-IsWellFormed w c m s h
dispatch-IsWellFormed MsgType.block w c m s h = handle_block-IsWellFormed w c m s h
dispatch-IsWellFormed MsgType.unblock w c m s h = handle_unblock-IsWellFormed w c m s h
dispatch-IsWellFormed MsgType.list_blocks w c m s h = handle_list_blocks-IsWellFormed w c m s h
dispatch-IsWellFormed MsgType.report_abuse w c m s h = handle_report_abuse-IsWellFormed w c m s h
dispatch-IsWellFormed MsgType.typing w c m s h = handle_typing-IsWellFormed w c m s h
dispatch-IsWellFormed MsgType.presence w c m s h = handle_presence-IsWellFormed w c m s h
dispatch-IsWellFormed MsgType.search w c m s h = handle_search-IsWellFormed w c m s h
dispatch-IsWellFormed MsgType.friend_request w c m s h =
    handle_friend_request-IsWellFormed w c m s h
dispatch-IsWellFormed MsgType.friend_accept w c m s h = handle_friend_accept-IsWellFormed w c m s h
dispatch-IsWellFormed MsgType.friend_reject w c m s h = handle_friend_reject-IsWellFormed w c m s h
dispatch-IsWellFormed MsgType.friend_remove w c m s h = handle_friend_remove-IsWellFormed w c m s h
dispatch-IsWellFormed MsgType.convo_create w c m s h = handle_convo_create-IsWellFormed w c m s h
dispatch-IsWellFormed MsgType.convo_msg w c m s h = handle_convo_msg-IsWellFormed w c m s h
dispatch-IsWellFormed MsgType.convo_leave w c m s h = handle_convo_leave-IsWellFormed w c m s h
dispatch-IsWellFormed MsgType.read_receipt w c m s h = handle_read_receipt-IsWellFormed w c m s h
dispatch-IsWellFormed MsgType.key_request w c m s h = handle_key_request-IsWellFormed w c m s h
dispatch-IsWellFormed MsgType.call_offer w c m s h = handle_call_signal-IsWellFormed w c m s h
dispatch-IsWellFormed MsgType.call_answer w c m s h = handle_call_signal-IsWellFormed w c m s h
dispatch-IsWellFormed MsgType.ice_candidate w c m s h = handle_call_signal-IsWellFormed w c m s h
dispatch-IsWellFormed MsgType.call_reject w c m s h = handle_call_end-IsWellFormed w c m s h
dispatch-IsWellFormed MsgType.call_end w c m s h = handle_call_end-IsWellFormed w c m s h
dispatch-IsWellFormed MsgType.server_create w c m s h = handle_server_create-IsWellFormed w c m s h
dispatch-IsWellFormed MsgType.server_list w c m s h = handle_server_list-IsWellFormed w c m s h
dispatch-IsWellFormed MsgType.server_join w c m s h = handle_server_join-IsWellFormed w c m s h
dispatch-IsWellFormed MsgType.server_leave w c m s h = handle_server_leave-IsWellFormed w c m s h
dispatch-IsWellFormed MsgType.server_info w c m s h = handle_server_info-IsWellFormed w c m s h
dispatch-IsWellFormed MsgType.channel_create w c m s h =
    handle_channel_create-IsWellFormed w c m s h
dispatch-IsWellFormed MsgType.channel_msg w c m s h = handle_channel_msg-IsWellFormed w c m s h
dispatch-IsWellFormed MsgType.channel_history w c m s h =
    handle_channel_history-IsWellFormed w c m s h
dispatch-IsWellFormed _ w c m s h = h

receive-IsWellFormed :
    (w : World) (c : ℕ) (m : NexusMessage) (s : Server)
    → IsWellFormed s.db
    → IsWellFormed (receive w c m s).db
unfolding receive
receive-IsWellFormed w c m s h = grind (arith, dispatch-IsWellFormed)

disconnect-IsWellFormed :
    (w : World) (c : ℕ) (s : Server) → IsWellFormed s.db → IsWellFormed (disconnect w c s).db
unfolding disconnect
disconnect-IsWellFormed w c s h = grind (arith, quiet)

Step-IsWellFormed : {s t : Server} → Step s t → IsWellFormed s.db → IsWellFormed t.db
Step-IsWellFormed (message {s} w c m live) h = receive-IsWellFormed w c m s h
Step-IsWellFormed (moderated {s} w r) h = admin_ban_handler-IsWellFormed w r s h
Step-IsWellFormed (resolved {s} w r) h = admin_resolve_report_handler-IsWellFormed w r s h
Step-IsWellFormed (closed {s} w c) h = disconnect-IsWellFormed w c s h

-- Whatever messages and moderation requests arrive in whatever order, whichever connections end,
-- and whichever statements fail: names, tokens, ids, friend pairs, memberships and blocks stay
-- distinct, each in its table, and no row has an id above the last one given.
pub Reach-IsWellFormed : {s t : Server} → IsWellFormed s.db → Reach s t → IsWellFormed t.db
Reach-IsWellFormed h here = h
Reach-IsWellFormed h (next r step) = Step-IsWellFormed step (Reach-IsWellFormed h r)
