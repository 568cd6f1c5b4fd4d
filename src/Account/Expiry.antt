-- ===== src/Account/Expiry.antt =====
-- Proofs on issueSessionToken, sessionUsername and revokeSession.
use skype7_reborn.Prelude.{
  ◌+◌, String, false, ◌≡◌, ◌≢◌, none, some, ◌==◌, eq_iff, eq_refl, eq-false, ltb, arith,
  if◌then◌else◌, refl, inl, inr,
}
use skype7_reborn.Prelude.Table.{query_row, insert_row, any_row}
use skype7_reborn.Prelude.Table.Rows.{
  query_row-none, query_row-insert, query_row-update, query_row-cases,
}
use skype7_reborn.World.{World, Site}
use skype7_reborn.Db.{Db}
use skype7_reborn.Sql.{fetch, insert_unique, fetch-eq_ok}
use skype7_reborn.Account.Session.{
  session_life, holds, set_revoked, issue_session_token, session_username, revoke_session,
  new_session,
}

-- An issue without an error: the token was unused, and its row is the last.
pub issue_session_token_inv :
    (w : World) (u device : String) (db : Db) {token : String} {db' : Db}
    → issue_session_token w u device db ≡ (token, none, db')
    → (any_row (holds token) db.session_tokens ≡ false)
      × (db'.session_tokens ≡ insert_row (new_session w u device token) db.session_tokens)
unfolding issue_session_token insert_unique
issue_session_token_inv w u device db {token} {db'} h = ground arith

pub query_row-issue_session_token :
    (w : World) (u device : String) (db : Db) {token : String} {db' : Db}
    → issue_session_token w u device db ≡ (token, none, db')
    → query_row (holds token) db'.session_tokens ≡ some (new_session w u device token)
unfolding holds new_session
query_row-issue_session_token w u device db {token} {db'} h =
    let (unused, rows) = issue_session_token_inv w u device db h in
    rw (rows, query_row-insert)
      (rw (query_row-none (holds token) db.session_tokens unused) (rw (eq_refl token)))

-- A token that was issued without an error names its user until thirty days have passed, at every
-- later moment at which the database answers, and nobody afterwards.
pub session_username-issue_session_token :
    (w w' : World) (u device : String) (db : Db) {token : String} {db' : Db}
    → issue_session_token w u device db ≡ (token, none, db')
    → token ≢ ""
    → w'.fails Site.session_select ≡ false
    → session_username w' token db' ≡ (if ltb (w.now + session_life) w'.now then "" else u)
unfolding session_username new_session
session_username-issue_session_token w w' u device db {token} {db'} h nonempty live =
    let found =
      fetch-eq_ok w' Site.session_select (holds token) db'.session_tokens live
        (query_row-issue_session_token w u device db h) in
    rw (eq-false token "" nonempty) (rw found)

-- Revoking a token ends it, at every later moment, whoever asks; every other token names whom it
-- named before.
pub session_username-revoke_session :
    (w w' : World) (token other : String) (db : Db)
    → w.fails Site.session_revoke ≡ false
    → session_username w' other (revoke_session w token db)
      ≡ (if token == other then "" else session_username w' other db)
unfolding session_username revoke_session fetch set_revoked holds
session_username-revoke_session w w' token other db live =
    let after =
      query_row-update (holds other) (holds token) set_revoked db.session_tokens (λ t. refl) in
    elim (query_row-cases (holds other) db.session_tokens) [
      | inl e ↦ rw live (rw (after, e) (ground (arith, e)))
      | inr (t, e, h) ↦ rw live (
          rw (after, e)
            (ground (arith, e, h, eq_iff t.token other, eq_iff t.token token, eq_iff token other)))
    ]
