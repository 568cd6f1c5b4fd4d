-- ===== src/Account/Login.antt =====
-- registerUser, validUsername, validEmail, verifyUser, authenticateUser, userBanInfo, userIsAdmin.
use Prim.Native.Char.{Char, code}
use Prim.Native.String.{count}
use skype7_reborn.Prelude.{
  ℕ, String, Bool, true, false, ◌&&◌, ◌||◌, not, none, some, ◌==◌, leb, ltb, nat_eq, if◌then◌else◌,
  Result, ok, err,
}
use skype7_reborn.Prelude.Table.{update_where}
use skype7_reborn.Prelude.Text.{all_chars, len}
use skype7_reborn.World.{World, rand_digits, Site}
use skype7_reborn.Db.{Db, User}
use skype7_reborn.Sql.{fetch, insert_unique}

-- the class [a-zA-Z0-9_.-]
username_char : Char → Bool
username_char c =
    (leb b'a' n && leb n b'z')
    || (leb b'A' n && leb n b'Z')
    || (leb b'0' n && leb n b'9')
    || nat_eq n b'_'
    || nat_eq n b'.'
    || nat_eq n b'-'
  where
    n : ℕ
    n = code c

unfoldable pub valid_username : String → Bool
unfolding username_char
valid_username u = all_chars username_char u && leb 3 (count u) && leb (count u) 32

unfoldable pub valid_email : World → String → Bool
valid_email w e = if e == "" then false else w.parse_address e

abbrev pub err_short_password : String
err_short_password = "password must be at least 8 characters"

abbrev pub err_bad_username : String
err_bad_username = "invalid username (3-32 chars, a-z A-Z 0-9 . _ -)"

abbrev pub err_bad_email : String
err_bad_email = "invalid email address"

abbrev pub rand_failed : String
rand_failed = "random source failed"

abbrev pub bcrypt_failed : String
bcrypt_failed = "bcrypt failed"

unfoldable pub new_user : String → String → String → String → String → User
new_user username email mood hash code = record {
  username = username;
  email = email;
  mood = mood;
  display_name = none;
  password_hash = hash;
  is_verified = false;
  verification_code = some code;
  phone_number = none;
  phone_verified = false;
  totp_secret = "";
  totp_enabled = false;
  is_admin = false;
  is_banned = false;
  ban_reason = "";
}

unfoldable pub insert_user : World → User → Db → Result String → Result String × Db
insert_user w u db r =
    elim (insert_unique w Site.register_insert (λ v. v.username == u.username) u db.users) [
      | err e ↦ (err e, db)
      | ok users ↦ (r, record db { users = users })
    ]

-- The result is the verification code.
unfoldable pub register_user : World → String → String → String → String → Db → Result String × Db
register_user w username email mood password db =
    if not (valid_username username)
    then (err err_bad_username, db)
    else if not (valid_email w email)
    then (err err_bad_email, db)
    else if ltb (len password) 8
    then (err err_short_password, db)
    else elim (w.bcrypt_generate password) [
      | none ↦ (err bcrypt_failed, db)
      | some hash ↦ elim (rand_digits w 6) [
        | none ↦ (err rand_failed, db)
        | some code ↦ insert_user w (new_user username email mood hash code) db (ok code)
      ]
    ]

unfoldable pub named : String → User → Bool
named username u = u.username == username

unfoldable pub set_verified : User → User
set_verified u = record u { is_verified = true; verification_code = none }

-- A code that is NULL does not scan into a string.
unfoldable pub code_matches : String → User → Bool
code_matches code u = elim u.verification_code [ none ↦ false | some c ↦ c == code ]

unfoldable pub verify_user : World → String → String → Db → Bool × Db
verify_user w username code db = elim (fetch w Site.verify_select (named username) db.users) [
  | err e ↦ (false, db)
  | ok u ↦
      if not (code_matches code u) || w.fails Site.verify_update
      then (false, db)
      else (true, record db { users = update_where (named username) set_verified db.users })
]

unfoldable pub authenticate_user : World → String → String → Db → Bool
authenticate_user w username password db =
    elim (fetch w Site.auth_select (named username) db.users) [
      | err e ↦ false
      | ok u ↦ if not u.is_verified then false else w.bcrypt_matches u.password_hash password
    ]

-- (banned, reason)
unfoldable pub user_ban_info : World → String → Db → Bool × String
user_ban_info w username db = elim (fetch w Site.ban_select (named username) db.users) [
  | err e ↦ (false, "")
  | ok u ↦ (u.is_banned, u.ban_reason)
]

unfoldable pub user_is_admin : World → String → Db → Bool
user_is_admin w username db = elim (fetch w Site.admin_select (named username) db.users) [
  | err e ↦ false
  | ok u ↦ u.is_admin
]
