-- ===== src/Integrity/Handlers/Accounts.antt =====
-- The constraints of the tables under the cases that manage accounts.
use skype7_reborn.Prelude.{ℕ, arith, String}
use skype7_reborn.World.{World}
use skype7_reborn.Wire.{NexusMessage}
use skype7_reborn.Server.{Server}
use skype7_reborn.Db.Keys.{IsWellFormed}
use skype7_reborn.Integrity.Quiet.{quiet}
use skype7_reborn.Handlers.Accounts.{
  handle_register, handle_verify_email, handle_resend_verification, handle_update_profile,
  handle_delete_account, handle_enable_totp, handle_confirm_totp, handle_disable_totp,
  handle_forgot_password, handle_reset_password, handle_change_password, change_password_to,
  check_passwords, store_password, handle_qr_login_create, handle_qr_login_approve, set_code,
  set_profile,
}
use skype7_reborn.Account.Totp.{set_totp}
use skype7_reborn.Account.Reset.{set_password}
use skype7_reborn.Integrity.Accounts.{
  register_user-IsWellFormed, verify_user-IsWellFormed, enable_totp-IsWellFormed,
  disable_totp-IsWellFormed, create_password_reset-IsWellFormed,
  consume_password_reset-IsWellFormed, create_qr_login-IsWellFormed, approve_qr_login-IsWellFormed,
  update_users-IsWellFormed,
}
use skype7_reborn.Integrity.Erase.{delete_account-IsWellFormed}

pub handle_register-IsWellFormed :
    (w : World) (c : ℕ) (m : NexusMessage) (s : Server)
    → IsWellFormed s.db
    → IsWellFormed (handle_register w c m s).db
unfolding handle_register
handle_register-IsWellFormed w c m s h = grind (arith, quiet, register_user-IsWellFormed)

pub handle_verify_email-IsWellFormed :
    (w : World) (c : ℕ) (m : NexusMessage) (s : Server)
    → IsWellFormed s.db
    → IsWellFormed (handle_verify_email w c m s).db
unfolding handle_verify_email
handle_verify_email-IsWellFormed w c m s h = grind (arith, quiet, verify_user-IsWellFormed)

pub handle_resend_verification-IsWellFormed :
    (w : World) (c : ℕ) (m : NexusMessage) (s : Server)
    → IsWellFormed s.db
    → IsWellFormed (handle_resend_verification w c m s).db
unfolding handle_resend_verification set_code
handle_resend_verification-IsWellFormed w c m s h = grind (arith, quiet, update_users-IsWellFormed)

pub handle_update_profile-IsWellFormed :
    (w : World) (c : ℕ) (m : NexusMessage) (s : Server)
    → IsWellFormed s.db
    → IsWellFormed (handle_update_profile w c m s).db
unfolding handle_update_profile set_profile
handle_update_profile-IsWellFormed w c m s h = grind (arith, quiet, update_users-IsWellFormed)

pub handle_delete_account-IsWellFormed :
    (w : World) (c : ℕ) (m : NexusMessage) (s : Server)
    → IsWellFormed s.db
    → IsWellFormed (handle_delete_account w c m s).db
unfolding handle_delete_account
handle_delete_account-IsWellFormed w c m s h = grind (arith, quiet, delete_account-IsWellFormed)

pub handle_enable_totp-IsWellFormed :
    (w : World) (c : ℕ) (m : NexusMessage) (s : Server)
    → IsWellFormed s.db
    → IsWellFormed (handle_enable_totp w c m s).db
unfolding handle_enable_totp set_totp
handle_enable_totp-IsWellFormed w c m s h = grind (arith, quiet, update_users-IsWellFormed)

pub handle_confirm_totp-IsWellFormed :
    (w : World) (c : ℕ) (m : NexusMessage) (s : Server)
    → IsWellFormed s.db
    → IsWellFormed (handle_confirm_totp w c m s).db
unfolding handle_confirm_totp
handle_confirm_totp-IsWellFormed w c m s h = grind (arith, quiet, enable_totp-IsWellFormed)

pub handle_disable_totp-IsWellFormed :
    (w : World) (c : ℕ) (m : NexusMessage) (s : Server)
    → IsWellFormed s.db
    → IsWellFormed (handle_disable_totp w c m s).db
unfolding handle_disable_totp
handle_disable_totp-IsWellFormed w c m s h = grind (arith, quiet, disable_totp-IsWellFormed)

pub handle_forgot_password-IsWellFormed :
    (w : World) (c : ℕ) (m : NexusMessage) (s : Server)
    → IsWellFormed s.db
    → IsWellFormed (handle_forgot_password w c m s).db
unfolding handle_forgot_password
handle_forgot_password-IsWellFormed w c m s h =
    grind (arith, quiet, create_password_reset-IsWellFormed)

pub handle_reset_password-IsWellFormed :
    (w : World) (c : ℕ) (m : NexusMessage) (s : Server)
    → IsWellFormed s.db
    → IsWellFormed (handle_reset_password w c m s).db
unfolding handle_reset_password
handle_reset_password-IsWellFormed w c m s h =
    grind (arith, quiet, consume_password_reset-IsWellFormed)

store_password-IsWellFormed :
    (w : World) (c : ℕ) (hash : String) (s : Server)
    → IsWellFormed s.db
    → IsWellFormed (store_password w c hash s).db
unfolding store_password set_password
store_password-IsWellFormed w c hash s h = grind (arith, quiet, update_users-IsWellFormed)

check_passwords-IsWellFormed :
    (w : World) (c : ℕ) (old new : String) (s : Server)
    → IsWellFormed s.db
    → IsWellFormed (check_passwords w c old new s).db
unfolding check_passwords
check_passwords-IsWellFormed w c old new s h = grind (arith, quiet, store_password-IsWellFormed)

change_password_to-IsWellFormed :
    (w : World) (c : ℕ) (old new : String) (s : Server)
    → IsWellFormed s.db
    → IsWellFormed (change_password_to w c old new s).db
unfolding change_password_to
change_password_to-IsWellFormed w c old new s h = grind (arith, quiet, check_passwords-IsWellFormed)

pub handle_change_password-IsWellFormed :
    (w : World) (c : ℕ) (m : NexusMessage) (s : Server)
    → IsWellFormed s.db
    → IsWellFormed (handle_change_password w c m s).db
unfolding handle_change_password
handle_change_password-IsWellFormed w c m s h =
    grind (arith, quiet, change_password_to-IsWellFormed)

pub handle_qr_login_create-IsWellFormed :
    (w : World) (c : ℕ) (m : NexusMessage) (s : Server)
    → IsWellFormed s.db
    → IsWellFormed (handle_qr_login_create w c m s).db
unfolding handle_qr_login_create
handle_qr_login_create-IsWellFormed w c m s h = grind (arith, quiet, create_qr_login-IsWellFormed)

pub handle_qr_login_approve-IsWellFormed :
    (w : World) (c : ℕ) (m : NexusMessage) (s : Server)
    → IsWellFormed s.db
    → IsWellFormed (handle_qr_login_approve w c m s).db
unfolding handle_qr_login_approve
handle_qr_login_approve-IsWellFormed w c m s h = grind (arith, quiet, approve_qr_login-IsWellFormed)
