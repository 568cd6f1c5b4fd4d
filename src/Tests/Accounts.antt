-- ===== src/Tests/Accounts.antt =====
-- The theorems on accounts at concrete inputs.
use skype7_reborn.Prelude.{
  ◌+◌, String, nat_eq, inr, err, true, false, ◌≡◌, refl, [], ◌∷◌, some, ok, is_ok, ◌==◌, ◌||◌, ltb,
  if◌then◌else◌, arith, text-apart,
}
use skype7_reborn.Prelude.Table.{query_row, any_row}
use skype7_reborn.Prelude.Table.Rows.{updated}
use skype7_reborn.World.{World, Site}
use skype7_reborn.Db.{Db, empty_db, PasswordReset, QrLogin}
use skype7_reborn.Sql.{insert_unique}
use skype7_reborn.Account.Login.{register_user, verify_user, authenticate_user, named}
use skype7_reborn.Account.Reset.{consume_password_reset, resets, set_password, reset_transaction}
use skype7_reborn.Account.Session.{
  issue_session_token, session_username, revoke_session, session_life,
}
use skype7_reborn.Account.Qr.{approve_qr_login, check_qr_login, shows, approvable}
use skype7_reborn.Account.Erase.{delete_account}
use skype7_reborn.Account.OneTime.{consume_password_reset_once, consume_password_reset_atomic}
use skype7_reborn.Account.Verified.{authenticate_user-verify_user, verify_user_once}
use skype7_reborn.Account.Handoff.{check_qr_login-approve_qr_login, approve_qr_login_once}
use skype7_reborn.Account.Expiry.{
  session_username-issue_session_token, session_username-revoke_session,
}
use skype7_reborn.Account.Erasure.{delete_account_atomic, delete_account-erases}
use skype7_reborn.Tests.Data.{morning, noon, failing, three_users, with_reset, session_text}

abbrev after_reset : Db
after_reset = (consume_password_reset morning "r1" "new password" with_reset).1

consume_password_reset_once_example :
    (r : PasswordReset) × (hash : String) × (query_row (resets "r1") with_reset.password_resets
      ≡ some r)
    × (morning.bcrypt_generate "new password" ≡ some hash)
    × (query_row (named "bob") after_reset.users
        ≡ updated (named r.username) (set_password hash) (query_row (named "bob") with_reset.users))
    × (is_ok (consume_password_reset noon "r1" "another one" after_reset).0 ≡ false)
unfolding consume_password_reset skype7_reborn.Sql.fetch resets reset_transaction
consume_password_reset_once_example =
    consume_password_reset_once morning noon "r1" "new password" "another one" "bob" with_reset refl

consume_password_reset_atomic_example :
    (consume_password_reset failing "r1" "new password" with_reset).1 ≡ with_reset
unfolding consume_password_reset skype7_reborn.Sql.fetch
consume_password_reset_atomic_example =
    consume_password_reset_atomic failing "r1" "new password" with_reset {e = "disk I/O error"} refl

abbrev registered : Db
registered = (register_user morning "dave" "dave@example.org" "" "correct horse" three_users).1

authenticate_user-verify_user_example :
    (authenticate_user noon "dave" "correct horse" registered ≡ false)
    × ((verify_user noon "dave" "444444" registered).0 ≡ true)
    × (hash : String) × (morning.bcrypt_generate "correct horse" ≡ some hash)
    × (authenticate_user noon "dave" "correct horse" (verify_user noon "dave" "444444" registered).1
        ≡ noon.bcrypt_matches hash "correct horse")
unfolding register_user skype7_reborn.Account.Login.valid_username
    skype7_reborn.Prelude.Text.all_chars skype7_reborn.Account.Login.valid_email
    skype7_reborn.World.rand_digits skype7_reborn.Account.Login.insert_user insert_unique
    skype7_reborn.Account.Login.new_user skype7_reborn.Prelude.Text.digit
authenticate_user-verify_user_example =
    authenticate_user-verify_user morning noon noon "dave" "dave@example.org" "" "correct horse"
      "correct horse" three_users refl refl refl refl

verify_user_once_example :
    (verify_user noon "dave" "444444" (verify_user morning "dave" "444444" registered).1).0 ≡ false
unfolding verify_user skype7_reborn.Sql.fetch register_user
    skype7_reborn.Account.Login.valid_username skype7_reborn.Prelude.Text.all_chars
    skype7_reborn.Account.Login.valid_email skype7_reborn.World.rand_digits
    skype7_reborn.Account.Login.insert_user insert_unique skype7_reborn.Account.Login.new_user named
    skype7_reborn.Account.Login.code_matches skype7_reborn.Prelude.Text.digit
verify_user_once_example =
    verify_user_once morning noon "dave" "444444" "444444" registered
      (verify_user morning "dave" "444444" registered).1 refl refl

abbrev shown_code : QrLogin
shown_code = record {
  token = "q1";
  username = "";
  session_token = "";
  device_info = "";
  expires_at = 3000000000000;
  approved = false;
}

abbrev shown : Db
shown = record three_users { qr_login_tokens = shown_code ∷ [] }

abbrev issued : Db
issued = (issue_session_token morning "bob" "phone" shown).2

check_qr_login-approve_qr_login_example :
    ((approve_qr_login morning "q1" "bob" "phone" shown).0 ≡ ok tt)
    × (check_qr_login noon "q1" (approve_qr_login morning "q1" "bob" "phone" shown).1
        ≡ ("bob", session_text, true))
    × (session_username noon session_text (approve_qr_login morning "q1" "bob" "phone" shown).1
        ≡ "bob")
unfolding query_row shows approvable issue_session_token skype7_reborn.World.rand_hex insert_unique
    empty_db skype7_reborn.Prelude.Text.hex_encode
check_qr_login-approve_qr_login_example =
    check_qr_login-approve_qr_login morning noon "q1" "bob" "phone" shown shown_code refl refl refl
      (text-apart session_text "" refl) refl refl refl (omega arith) (omega arith)

approve_qr_login_once_example :
    is_ok
      (approve_qr_login noon "q1" "carol" "laptop"
        (approve_qr_login morning "q1" "bob" "phone" shown).1).0
    ≡ false
unfolding approve_qr_login issue_session_token skype7_reborn.World.rand_hex insert_unique empty_db
    approvable
approve_qr_login_once_example =
    approve_qr_login_once morning noon "q1" "bob" "carol" "phone" "laptop" shown refl (omega arith)

session_username-issue_session_token_example :
    session_username noon session_text issued
    ≡ (if ltb (morning.now + session_life) noon.now then "" else "bob")
unfolding issue_session_token skype7_reborn.World.rand_hex insert_unique empty_db
    skype7_reborn.Prelude.Text.hex_encode
session_username-issue_session_token_example =
    session_username-issue_session_token morning noon "bob" "phone" shown {token = session_text}
      {db' = issued} refl (text-apart session_text "" refl) refl

session_username-revoke_session_example :
    session_username noon session_text (revoke_session morning session_text issued)
    ≡ (if session_text == session_text then "" else session_username noon session_text issued)
session_username-revoke_session_example =
    session_username-revoke_session morning noon session_text session_text issued refl

-- The fifth of the ten statements fails.
abbrev half_way : World
half_way = record morning {
  fails = λ s. elim s [ Site.erase_statement i ↦ nat_eq i 4 | _ ↦ false ];
}

delete_account_atomic_example :
    (e : String) × (delete_account half_way "bob" three_users ≡ (err e, three_users))
delete_account_atomic_example =
    delete_account_atomic half_way "bob" three_users (inr (inr (4, omega arith, refl)))

abbrev without_bob : Db
without_bob = (delete_account morning "bob" with_reset).1

delete_account-erases_example :
    (any_row (λ f. f.user_a == "bob" || f.user_b == "bob") without_bob.friends ≡ false)
    × (any_row (λ m. m.sender == "bob" || m.recipient == "bob") without_bob.offline_messages
        ≡ false)
    × (any_row (λ m. m.username == "bob") without_bob.conversation_members ≡ false)
    × (any_row (λ c. c.created_by == "bob") without_bob.conversations ≡ false)
    × (any_row (λ b. b.blocker == "bob" || b.blocked == "bob") without_bob.blocks ≡ false)
    × (any_row (λ r. r.reporter == "bob") without_bob.abuse_reports ≡ false)
    × (any_row (λ t. t.username == "bob") without_bob.session_tokens ≡ false)
    × (any_row (λ r. r.username == "bob") without_bob.password_resets ≡ false)
    × (any_row (λ q. q.username == "bob") without_bob.qr_login_tokens ≡ false)
    × (any_row (named "bob") without_bob.users ≡ false)
    × (without_bob.server_members ≡ with_reset.server_members)
    × (without_bob.servers ≡ with_reset.servers)
    × (without_bob.channel_messages ≡ with_reset.channel_messages)
unfolding delete_account skype7_reborn.Account.Erase.erase_loop
    skype7_reborn.Account.Erase.erase_statements
delete_account-erases_example = delete_account-erases morning "bob" with_reset refl
