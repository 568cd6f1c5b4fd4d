-- ===== src/Integrity/Accounts.antt =====
-- The constraints of the tables under the account operations.
use skype7_reborn.Prelude.{
  String, Bool, true, false, ◌≡◌, refl, none, some, Option, ◌==◌, eq_iff, arith, Result,
}
use skype7_reborn.Prelude.Table.{update_where, any_row, insert_row}
use skype7_reborn.Prelude.Table.Keys.{Distinct-update, Distinct-insert}
use skype7_reborn.World.{World}
use skype7_reborn.Db.{Db, User, SessionToken, PasswordReset, QrLogin}
use skype7_reborn.Db.Keys.{
  IsWellFormed, same_username, same_session, same_reset, same_qr, with_users, with_sessions,
  with_resets, with_qr_logins,
}
use skype7_reborn.Sql.{insert_unique}
use skype7_reborn.Account.Login.{named, insert_user, register_user, verify_user, set_verified}
use skype7_reborn.Account.Session.{
  holds, revoke_session, set_revoked, issue_session_token, new_session,
}
use skype7_reborn.Account.Totp.{set_totp, enable_totp, disable_totp}
use skype7_reborn.Account.Reset.{
  resets, set_password, set_used, create_password_reset, reset_transaction, consume_password_reset,
}
use skype7_reborn.Account.Qr.{
  shows, create_qr_login, approvable, set_approved, finish_approve, approve_qr_login,
}

-- An UPDATE of users that leaves the names.
pub update_users-IsWellFormed :
    (p : User → Bool) (f : User → User) (db : Db)
    → IsWellFormed db
    → ((u : User) → (f u).username ≡ u.username)
    → IsWellFormed (record db { users = update_where p f db.users })
update_users-IsWellFormed p f db h keep = with_users h (
    Distinct-update same_username p f db.users (λ x y. rw (keep x) refl) (λ x y. rw (keep y) refl)
      h.users)

insert_users-IsWellFormed :
    (u : User) (db : Db)
    → IsWellFormed db
    → any_row (λ v. v.username == u.username) db.users ≡ false
    → IsWellFormed (record db { users = insert_row u db.users })
insert_users-IsWellFormed u db h free = with_users h (
    Distinct-insert same_username u db.users
      (λ a b. ground (arith, eq_iff a.username b.username, eq_iff b.username a.username)) free
      h.users)

insert_user-IsWellFormed :
    (w : World) (u : User) (db : Db) (r : Result String)
    → IsWellFormed db
    → IsWellFormed (insert_user w u db r).1
unfolding insert_user insert_unique
insert_user-IsWellFormed w u db r h = ground (arith, insert_users-IsWellFormed u db h)

pub register_user-IsWellFormed :
    (w : World) (u email mood password : String) (db : Db)
    → IsWellFormed db
    → IsWellFormed (register_user w u email mood password db).1
unfolding register_user
register_user-IsWellFormed w u email mood password db h = grind (arith, insert_user-IsWellFormed)

pub verify_user-IsWellFormed :
    (w : World) (u code : String) (db : Db)
    → IsWellFormed db
    → IsWellFormed (verify_user w u code db).1
unfolding verify_user set_verified
verify_user-IsWellFormed w u code db h =
    ground (arith, update_users-IsWellFormed (named u) set_verified db h (λ x. refl))

pub enable_totp-IsWellFormed :
    (w : World) (u secret code : String) (db : Db)
    → IsWellFormed db
    → IsWellFormed (enable_totp w u secret code db).1
unfolding enable_totp set_totp
enable_totp-IsWellFormed w u secret code db h =
    ground (arith, update_users-IsWellFormed (named u) (set_totp secret true) db h (λ x. refl))

pub disable_totp-IsWellFormed :
    (w : World) (u : String) (db : Db) → IsWellFormed db → IsWellFormed (disable_totp w u db)
unfolding disable_totp set_totp
disable_totp-IsWellFormed w u db h =
    ground (arith, update_users-IsWellFormed (named u) (set_totp "" false) db h (λ x. refl))

pub update_sessions-IsWellFormed :
    (p : SessionToken → Bool) (db : Db)
    → IsWellFormed db
    → IsWellFormed (record db { session_tokens = update_where p set_revoked db.session_tokens })
unfolding set_revoked
update_sessions-IsWellFormed p db h = with_sessions h (
    Distinct-update same_session p set_revoked db.session_tokens (λ x y. refl) (λ x y. refl)
      h.sessions)

pub revoke_session-IsWellFormed :
    (w : World) (token : String) (db : Db)
    → IsWellFormed db
    → IsWellFormed (revoke_session w token db)
unfolding revoke_session
revoke_session-IsWellFormed w token db h =
    ground (arith, update_sessions-IsWellFormed (holds token) db h)

insert_session-IsWellFormed :
    (w : World) (u device token : String) (db : Db)
    → IsWellFormed db
    → any_row (holds token) db.session_tokens ≡ false
    → IsWellFormed
        (record db { session_tokens = insert_row (new_session w u device token) db.session_tokens })
unfolding holds new_session
insert_session-IsWellFormed w u device token db h free = with_sessions h (
    Distinct-insert same_session _ db.session_tokens
      (λ a b. ground (arith, eq_iff a.token b.token, eq_iff b.token a.token)) free h.sessions)

pub issue_session_token-IsWellFormed :
    (w : World) (u device : String) (db : Db)
    → IsWellFormed db
    → IsWellFormed (issue_session_token w u device db).2
unfolding issue_session_token insert_unique
issue_session_token-IsWellFormed w u device db h = grind (arith, insert_session-IsWellFormed)

insert_reset-IsWellFormed :
    (r : PasswordReset) (db : Db)
    → IsWellFormed db
    → any_row (resets r.token) db.password_resets ≡ false
    → IsWellFormed (record db { password_resets = insert_row r db.password_resets })
unfolding resets
insert_reset-IsWellFormed r db h free = with_resets h (
    Distinct-insert same_reset r db.password_resets
      (λ a b. ground (arith, eq_iff a.token b.token, eq_iff b.token a.token)) free h.resets)

pub create_password_reset-IsWellFormed :
    (w : World) (email : String) (db : Db)
    → IsWellFormed db
    → IsWellFormed (create_password_reset w email db).1
unfolding create_password_reset insert_unique
create_password_reset-IsWellFormed w email db h = grind (arith, insert_reset-IsWellFormed)

reset_both-IsWellFormed :
    (token u hash : String) (db : Db)
    → IsWellFormed db
    → IsWellFormed (record db {
      users = update_where (named u) (set_password hash) db.users;
      password_resets = update_where (resets token) set_used db.password_resets;
    })
unfolding set_password set_used
reset_both-IsWellFormed token u hash db h =
    with_resets (update_users-IsWellFormed (named u) (set_password hash) db h (λ x. refl)) (
      Distinct-update same_reset (resets token) set_used db.password_resets (λ x y. refl)
        (λ x y. refl) h.resets)

pub consume_password_reset-IsWellFormed :
    (w : World) (token password : String) (db : Db)
    → IsWellFormed db
    → IsWellFormed (consume_password_reset w token password db).1
unfolding consume_password_reset reset_transaction
consume_password_reset-IsWellFormed w token password db h = grind (arith, reset_both-IsWellFormed)

insert_qr-IsWellFormed :
    (q : QrLogin) (db : Db)
    → IsWellFormed db
    → any_row (shows q.token) db.qr_login_tokens ≡ false
    → IsWellFormed (record db { qr_login_tokens = insert_row q db.qr_login_tokens })
unfolding shows
insert_qr-IsWellFormed q db h free = with_qr_logins h (
    Distinct-insert same_qr q db.qr_login_tokens
      (λ a b. ground (arith, eq_iff a.token b.token, eq_iff b.token a.token)) free h.qr_logins)

pub create_qr_login-IsWellFormed :
    (w : World) (db : Db) → IsWellFormed db → IsWellFormed (create_qr_login w db).1
unfolding create_qr_login insert_unique
create_qr_login-IsWellFormed w db h = grind (arith, insert_qr-IsWellFormed)

approve_rows-IsWellFormed :
    (w : World) (token u sess device : String) (db : Db)
    → IsWellFormed db
    → IsWellFormed (record db {
      qr_login_tokens =
          update_where (approvable w token) (set_approved u sess device) db.qr_login_tokens;
    })
unfolding set_approved
approve_rows-IsWellFormed w token u sess device db h = with_qr_logins h (
    Distinct-update same_qr _ (set_approved u sess device) db.qr_login_tokens (λ x y. refl)
      (λ x y. refl) h.qr_logins)

finish_approve-IsWellFormed :
    (w : World) (token u device : String) (r : String × Option String × Db)
    → IsWellFormed r.2
    → IsWellFormed (finish_approve w token u device r).1
unfolding finish_approve
finish_approve-IsWellFormed w token u device (sess, some e, db) h = h
finish_approve-IsWellFormed w token u device (sess, none, db) h =
    ground (arith, approve_rows-IsWellFormed w token u sess device db h)

pub approve_qr_login-IsWellFormed :
    (w : World) (token u device : String) (db : Db)
    → IsWellFormed db
    → IsWellFormed (approve_qr_login w token u device db).1
unfolding approve_qr_login
approve_qr_login-IsWellFormed w token u device db h =
    finish_approve-IsWellFormed w token u device _
      (issue_session_token-IsWellFormed w u device db h)
