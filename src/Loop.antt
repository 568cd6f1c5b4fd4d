-- ===== src/Loop.antt =====
-- The read loop of handleConnections: the rate limit, the switch on the message's type, and every
-- order in which the connections' loops may take their turns.
use skype7_reborn.Prelude.{ℕ, ◌+◌, true, not, ◌≡◌, if◌then◌else◌}
use skype7_reborn.World.{World}
use skype7_reborn.Wire.{NexusMessage, MsgType}
use skype7_reborn.Server.{Server}
use skype7_reborn.Admin.{Request, admin_ban_handler, admin_resolve_report_handler}
use skype7_reborn.Handlers.Login.{
  handle_auth, handle_session_auth, handle_qr_login_check, handle_revoke_session, disconnect,
}
use skype7_reborn.Handlers.Accounts.{
  handle_register, handle_verify_email, handle_resend_verification, handle_update_profile,
  handle_delete_account, handle_enable_totp, handle_confirm_totp, handle_disable_totp,
  handle_forgot_password, handle_reset_password, handle_change_password, handle_qr_login_create,
  handle_qr_login_approve,
}
use skype7_reborn.Handlers.Phone.{
  handle_pstn_call, handle_request_phone_link, handle_verify_phone_link,
}
use skype7_reborn.Handlers.Chat.{
  handle_msg, handle_block, handle_unblock, handle_list_blocks, handle_report_abuse, handle_typing,
  handle_status_update, handle_presence, handle_search,
}
use skype7_reborn.Handlers.Roster.{
  handle_friend_request, handle_friend_accept, handle_friend_reject, handle_friend_remove,
}
use skype7_reborn.Handlers.Groups.{handle_convo_create, handle_convo_msg, handle_convo_leave}
use skype7_reborn.Handlers.Signal.{
  handle_read_receipt, handle_key_request, handle_call_signal, handle_call_end,
}
use skype7_reborn.Handlers.Space.{
  handle_server_create, handle_server_list, handle_server_join, handle_server_leave,
  handle_server_info,
}
use skype7_reborn.Handlers.Channels.{
  handle_channel_create, handle_channel_msg, handle_channel_history,
}

-- The switch; a type that it does not know is only logged.
unfoldable pub dispatch : MsgType → World → ℕ → NexusMessage → Server → Server
dispatch MsgType.pstn_call w c m s = handle_pstn_call w c m s
dispatch MsgType.register w c m s = handle_register w c m s
dispatch MsgType.verify_email w c m s = handle_verify_email w c m s
dispatch MsgType.status_update w c m s = handle_status_update w c m s
dispatch MsgType.request_phone_link w c m s = handle_request_phone_link w c m s
dispatch MsgType.verify_phone_link w c m s = handle_verify_phone_link w c m s
dispatch MsgType.update_profile w c m s = handle_update_profile w c m s
dispatch MsgType.auth w c m s = handle_auth w c m s
dispatch MsgType.session_auth w c m s = handle_session_auth w c m s
dispatch MsgType.revoke_session w c m s = handle_revoke_session w c m s
dispatch MsgType.delete_account w c m s = handle_delete_account w c m s
dispatch MsgType.resend_verification w c m s = handle_resend_verification w c m s
dispatch MsgType.enable_totp w c m s = handle_enable_totp w c m s
dispatch MsgType.confirm_totp w c m s = handle_confirm_totp w c m s
dispatch MsgType.disable_totp w c m s = handle_disable_totp w c m s
dispatch MsgType.forgot_password w c m s = handle_forgot_password w c m s
dispatch MsgType.reset_password w c m s = handle_reset_password w c m s
dispatch MsgType.change_password w c m s = handle_change_password w c m s
dispatch MsgType.qr_login_create w c m s = handle_qr_login_create w c m s
dispatch MsgType.qr_login_approve w c m s = handle_qr_login_approve w c m s
dispatch MsgType.qr_login_check w c m s = handle_qr_login_check w c m s
dispatch MsgType.msg w c m s = handle_msg w c m s
dispatch MsgType.block w c m s = handle_block w c m s
dispatch MsgType.unblock w c m s = handle_unblock w c m s
dispatch MsgType.list_blocks w c m s = handle_list_blocks w c m s
dispatch MsgType.report_abuse w c m s = handle_report_abuse w c m s
dispatch MsgType.typing w c m s = handle_typing w c m s
dispatch MsgType.presence w c m s = handle_presence w c m s
dispatch MsgType.search w c m s = handle_search w c m s
dispatch MsgType.friend_request w c m s = handle_friend_request w c m s
dispatch MsgType.friend_accept w c m s = handle_friend_accept w c m s
dispatch MsgType.friend_reject w c m s = handle_friend_reject w c m s
dispatch MsgType.friend_remove w c m s = handle_friend_remove w c m s
dispatch MsgType.convo_create w c m s = handle_convo_create w c m s
dispatch MsgType.convo_msg w c m s = handle_convo_msg w c m s
dispatch MsgType.convo_leave w c m s = handle_convo_leave w c m s
dispatch MsgType.read_receipt w c m s = handle_read_receipt w c m s
dispatch MsgType.key_request w c m s = handle_key_request w c m s
dispatch MsgType.call_offer w c m s = handle_call_signal w c m s
dispatch MsgType.call_answer w c m s = handle_call_signal w c m s
dispatch MsgType.ice_candidate w c m s = handle_call_signal w c m s
dispatch MsgType.call_reject w c m s = handle_call_end w c m s
dispatch MsgType.call_end w c m s = handle_call_end w c m s
dispatch MsgType.server_create w c m s = handle_server_create w c m s
dispatch MsgType.server_list w c m s = handle_server_list w c m s
dispatch MsgType.server_join w c m s = handle_server_join w c m s
dispatch MsgType.server_leave w c m s = handle_server_leave w c m s
dispatch MsgType.server_info w c m s = handle_server_info w c m s
dispatch MsgType.channel_create w c m s = handle_channel_create w c m s
dispatch MsgType.channel_msg w c m s = handle_channel_msg w c m s
dispatch MsgType.channel_history w c m s = handle_channel_history w c m s
dispatch _ w c m s = s

abbrev count_in : Server → Server
count_in s = record s {
  metrics = record s.metrics { ws_messages_in = s.metrics.ws_messages_in + 1 };
}

-- One turn of the loop: a message over the limit is dropped.
unfoldable pub receive : World → ℕ → NexusMessage → Server → Server
receive w c m s = if not w.msg_allowed then s else dispatch m.type w c m (count_in s)

-- A turn of some connection's loop, a moderation request, or the end of a connection.
pub data Step : Server → Server → Type 0 where
  message :
      {s : Server} (w : World) (c : ℕ) (m : NexusMessage)
      → (s.conns c).is_open ≡ true
      → Step s (receive w c m s)
  moderated : {s : Server} (w : World) (r : Request) → Step s (admin_ban_handler w r s).1
  resolved : {s : Server} (w : World) (r : Request) → Step s (admin_resolve_report_handler w r s).1
  closed : {s : Server} (w : World) (c : ℕ) → Step s (disconnect w c s)

pub data Reach (s : Server) : Server → Type 0 where
  here : Reach s s
  next : {t u : Server} → Reach s t → Step t u → Reach s u
