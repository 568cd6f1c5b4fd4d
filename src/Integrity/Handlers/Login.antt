-- ===== src/Integrity/Handlers/Login.antt =====
-- The constraints of the tables under the logins and the phone cases.
use skype7_reborn.Prelude.{ℕ, arith}
use skype7_reborn.World.{World}
use skype7_reborn.Wire.{NexusMessage}
use skype7_reborn.Server.{Server}
use skype7_reborn.Db.Keys.{IsWellFormed}
use skype7_reborn.Integrity.Quiet.{quiet}
use skype7_reborn.Handlers.Login.{
  handle_auth, complete_auth, handle_session_auth, handle_qr_login_check, resume,
  handle_revoke_session,
}
use skype7_reborn.Handlers.Phone.{
  handle_pstn_call, handle_request_phone_link, handle_verify_phone_link, set_phone,
  set_phone_verified, clear_code,
}
use skype7_reborn.Integrity.Accounts.{
  issue_session_token-IsWellFormed, revoke_session-IsWellFormed, update_users-IsWellFormed,
}
use skype7_reborn.Integrity.Social.{deliver_offline_messages-IsWellFormed}

pub handle_auth-IsWellFormed :
    (w : World) (c : ℕ) (m : NexusMessage) (s : Server)
    → IsWellFormed s.db
    → IsWellFormed (handle_auth w c m s).db
unfolding handle_auth complete_auth
handle_auth-IsWellFormed w c m s h =
    grind (arith, quiet, issue_session_token-IsWellFormed, deliver_offline_messages-IsWellFormed)

pub handle_session_auth-IsWellFormed :
    (w : World) (c : ℕ) (m : NexusMessage) (s : Server)
    → IsWellFormed s.db
    → IsWellFormed (handle_session_auth w c m s).db
unfolding handle_session_auth resume
handle_session_auth-IsWellFormed w c m s h =
    grind (arith, quiet, revoke_session-IsWellFormed, deliver_offline_messages-IsWellFormed)

pub handle_qr_login_check-IsWellFormed :
    (w : World) (c : ℕ) (m : NexusMessage) (s : Server)
    → IsWellFormed s.db
    → IsWellFormed (handle_qr_login_check w c m s).db
unfolding handle_qr_login_check resume
handle_qr_login_check-IsWellFormed w c m s h =
    grind (arith, quiet, deliver_offline_messages-IsWellFormed)

pub handle_revoke_session-IsWellFormed :
    (w : World) (c : ℕ) (m : NexusMessage) (s : Server)
    → IsWellFormed s.db
    → IsWellFormed (handle_revoke_session w c m s).db
unfolding handle_revoke_session
handle_revoke_session-IsWellFormed w c m s h = grind (arith, quiet, revoke_session-IsWellFormed)

pub handle_pstn_call-IsWellFormed :
    (w : World) (c : ℕ) (m : NexusMessage) (s : Server)
    → IsWellFormed s.db
    → IsWellFormed (handle_pstn_call w c m s).db
unfolding handle_pstn_call
handle_pstn_call-IsWellFormed w c m s h = grind (arith, quiet)

pub handle_request_phone_link-IsWellFormed :
    (w : World) (c : ℕ) (m : NexusMessage) (s : Server)
    → IsWellFormed s.db
    → IsWellFormed (handle_request_phone_link w c m s).db
unfolding handle_request_phone_link set_phone
handle_request_phone_link-IsWellFormed w c m s h = grind (arith, quiet, update_users-IsWellFormed)

pub handle_verify_phone_link-IsWellFormed :
    (w : World) (c : ℕ) (m : NexusMessage) (s : Server)
    → IsWellFormed s.db
    → IsWellFormed (handle_verify_phone_link w c m s).db
unfolding handle_verify_phone_link set_phone_verified clear_code
handle_verify_phone_link-IsWellFormed w c m s h = grind (arith, quiet, update_users-IsWellFormed)
