-- ===== src/Account/OneTime.antt =====
-- Proofs on consumePasswordReset.
use skype7_reborn.Prelude.{String, false, ◌≡◌, some, arith, refl, ok, err, is_ok}
use skype7_reborn.Prelude.Table.{query_row, update_where}
use skype7_reborn.Prelude.Table.Rows.{query_row-update, query_row-cases, updated}
use skype7_reborn.World.{World}
use skype7_reborn.Db.{Db, PasswordReset}
use skype7_reborn.Sql.{fetch}
use skype7_reborn.Account.Login.{named}
use skype7_reborn.Account.Reset.{
  consume_password_reset, reset_transaction, resets, set_password, set_used,
}

-- Whichever check or statement makes a reset fail, it leaves the database as it was.
pub consume_password_reset_atomic :
    (w : World) (token password : String) (db : Db) {e : String}
    → (consume_password_reset w token password db).0 ≡ err e
    → (consume_password_reset w token password db).1 ≡ db
unfolding consume_password_reset reset_transaction
consume_password_reset_atomic w token password db {e} h = ground arith

consume_password_reset_inv :
    (w : World) (token password : String) (db : Db) {db' : Db}
    → consume_password_reset w token password db ≡ (ok tt, db')
    → (r : PasswordReset) × (hash : String) × (query_row (resets token) db.password_resets ≡ some r)
      × (w.bcrypt_generate password ≡ some hash)
      × (db'.users ≡ update_where (named r.username) (set_password hash) db.users)
      × (db'.password_resets ≡ update_where (resets token) set_used db.password_resets)
unfolding consume_password_reset reset_transaction fetch
consume_password_reset_inv w token password db {db'} h = ground arith

-- A reset that succeeded sets the owner's password hash to bcrypt's of the new password, changes
-- no other user and nothing else of the owner, and the token never resets a password again.
pub consume_password_reset_once :
    (w w' : World) (token password password' v : String) (db : Db) {db' : Db}
    → consume_password_reset w token password db ≡ (ok tt, db')
    → (r : PasswordReset) × (hash : String) × (query_row (resets token) db.password_resets ≡ some r)
      × (w.bcrypt_generate password ≡ some hash)
      × (query_row (named v) db'.users
          ≡ updated (named r.username) (set_password hash) (query_row (named v) db.users))
      × (is_ok (consume_password_reset w' token password' db').0 ≡ false)
unfolding named set_password resets set_used
consume_password_reset_once w w' token password password' v db {db'} h =
    let (r, hash, found, made, users, rows) = consume_password_reset_inv w token password db h in
    (
      r,
      hash,
      found,
      made,
      rw users (query_row-update (named v) _ _ db.users (λ x. refl)),
      unfold consume_password_reset reset_transaction fetch in
          ground (
            arith,
            rows,
            found,
            query_row-cases (resets token) db.password_resets,
            query_row-update (resets token) (resets token) set_used db.password_resets (λ x. refl),
          ),
    )
