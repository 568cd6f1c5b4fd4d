-- ===== src/Account/Verified.antt =====
-- Proofs on registerUser, verifyUser and authenticateUser.
use skype7_reborn.Prelude.{String, true, false, ◌≡◌, some, eq_refl, arith, refl, ok}
use skype7_reborn.Prelude.Table.{query_row, insert_row, any_row}
use skype7_reborn.Prelude.Table.Rows.{
  query_row-none, query_row-insert, query_row-update, query_row-cases,
}
use skype7_reborn.World.{World, Site}
use skype7_reborn.Db.{Db, User}
use skype7_reborn.Sql.{fetch, insert_unique, fetch-eq_ok}
use skype7_reborn.Account.Login.{
  register_user, insert_user, new_user, named, verify_user, authenticate_user, code_matches,
  set_verified,
}

-- A registration that returns a code: the name was free, and the new row is the last.
register_user_inv :
    (w : World) (u email mood password : String) (db : Db) {code : String} {db' : Db}
    → register_user w u email mood password db ≡ (ok code, db')
    → (hash : String) × (w.bcrypt_generate password ≡ some hash)
      × (any_row (named u) db.users ≡ false)
      × (db'.users ≡ insert_row (new_user u email mood hash code) db.users)
unfolding register_user insert_user insert_unique named new_user
register_user_inv w u email mood password db {code} {db'} h = ground arith

registered_row :
    (w : World) (u email mood password : String) (db : Db) {code : String} {db' : Db}
    → register_user w u email mood password db ≡ (ok code, db')
    → (hash : String) × (w.bcrypt_generate password ≡ some hash)
      × (query_row (named u) db'.users ≡ some (new_user u email mood hash code))
registered_row w u email mood password db {code} {db'} h =
    let (hash, made, free, rows) = register_user_inv w u email mood password db h in
    (
      hash,
      made,
      rw (rows, query_row-insert)
          (rw (query_row-none (named u) db.users free) (unfold named new_user in rw (eq_refl u))),
    )

-- The user whom verify_user found, after it succeeded.
verified_row :
    (w : World) (u code : String) (db : Db) (r : User)
    → query_row (named u) db.users ≡ some r
    → code_matches code r ≡ true
    → w.fails Site.verify_select ≡ false
    → w.fails Site.verify_update ≡ false
    → ((verify_user w u code db).0 ≡ true)
      × (query_row (named u) (verify_user w u code db).1.users ≡ some (set_verified r))
unfolding verify_user fetch named set_verified
verified_row w u code db r found good live live' = ground (
  arith,
  query_row-update (named u) (named u) set_verified db.users (λ x. refl),
  query_row-cases (named u) db.users,
)

-- A user who registered cannot log in before the address is verified; the mailed code verifies it;
-- and from then on exactly the passwords that bcrypt matches with the hash of the registered one
-- log in.
pub authenticate_user-verify_user :
    (w w1 w2 : World) (u email mood password attempt : String) (db : Db) {code : String} {db' : Db}
    → register_user w u email mood password db ≡ (ok code, db')
    → w1.fails Site.verify_select ≡ false
    → w1.fails Site.verify_update ≡ false
    → w2.fails Site.auth_select ≡ false
    → (authenticate_user w2 u attempt db' ≡ false)
      × ((verify_user w1 u code db').0 ≡ true)
      × (hash : String) × (w.bcrypt_generate password ≡ some hash)
      × (authenticate_user w2 u attempt (verify_user w1 u code db').1
          ≡ w2.bcrypt_matches hash attempt)
unfolding authenticate_user
authenticate_user-verify_user w w1 w2 u email mood password attempt db {code} {db'} h l1 l2 l3 =
    let (hash, made, row) = registered_row w u email mood password db h in
    let (done, row') =
      verified_row w1 u code db' (new_user u email mood hash code) row
        (unfold code_matches new_user in eq_refl code) l1 l2 in
    (
      rw (fetch-eq_ok w2 Site.auth_select (named u) db'.users l3 row, authenticate_user)
          (unfold new_user in refl),
      done,
      hash,
      made,
      rw
          (
            fetch-eq_ok w2 Site.auth_select (named u) (verify_user w1 u code db').1.users l3 row',
            authenticate_user,
          )
          (unfold new_user set_verified in refl),
    )

-- A code verifies once: after a success no code at all verifies the same user in any database that
-- still has the user's row as the success left it. (A later request for a new code changes the row.)
pub verify_user_once :
    (w w' : World) (u code code' : String) (db later : Db) {db' : Db}
    → verify_user w u code db ≡ (true, db')
    → query_row (named u) later.users ≡ query_row (named u) db'.users
    → (verify_user w' u code' later).0 ≡ false
unfolding verify_user fetch code_matches set_verified named
verify_user_once w w' u code code' db later {db'} h same = ground (
  arith,
  same,
  query_row-update (named u) (named u) set_verified db.users (λ x. refl),
  query_row-cases (named u) db.users,
)
