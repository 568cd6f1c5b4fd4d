-- ===== src/Account/Erasure.antt =====
-- Proofs on deleteAccount.
use skype7_reborn.Prelude.{
  ℕ, zero, suc, ◌+◌, ◌<◌, ◌⊎◌, inl, inr, List, [], ◌∷◌, none, length, true, String, ◌||◌, false,
  ◌≡◌, refl, some, ◌==◌, arith, ok, err, is_ok, failed_result, subst,
}
use skype7_reborn.Prelude.Table.{delete_where, any_row}
use skype7_reborn.Prelude.Table.Rows.{any_row-delete}
use skype7_reborn.World.{World, Site}
use skype7_reborn.Db.{Db}
use skype7_reborn.Account.Login.{named}
use skype7_reborn.Account.Erase.{delete_account, erase_loop, erase_statements}

-- All ten statements, one after the other.
unfoldable pub erased : String → Db → Db
erased u db = record db {
  friends = delete_where (λ f. f.user_a == u || f.user_b == u) db.friends;
  offline_messages = delete_where (λ m. m.sender == u || m.recipient == u) db.offline_messages;
  conversation_members = delete_where (λ m. m.username == u) db.conversation_members;
  conversations = delete_where (λ c. c.created_by == u) db.conversations;
  blocks = delete_where (λ b. b.blocker == u || b.blocked == u) db.blocks;
  abuse_reports = delete_where (λ r. r.reporter == u) db.abuse_reports;
  session_tokens = delete_where (λ t. t.username == u) db.session_tokens;
  password_resets = delete_where (λ r. r.username == u) db.password_resets;
  qr_login_tokens = delete_where (λ q. q.username == u) db.qr_login_tokens;
  users = delete_where (named u) db.users;
}

erase_loop-erased :
    (w : World) (u : String) (db : Db) {db' : Db}
    → erase_loop w 0 (erase_statements u) db ≡ some db'
    → db' ≡ erased u db
unfolding erase_loop erase_statements erased
erase_loop-erased w u db {db'} h = ground arith

pub delete_account_inv :
    (w : World) (u : String) (db : Db) {db' : Db}
    → delete_account w u db ≡ (ok tt, db')
    → db' ≡ erased u db
unfolding delete_account
delete_account_inv w u db {db'} h = grind (arith, erase_loop-erased)

-- An error comes without a change.
pub delete_account_unchanged :
    (w : World) (u : String) (db : Db) {e : String}
    → (delete_account w u db).0 ≡ err e
    → (delete_account w u db).1 ≡ db
unfolding delete_account
delete_account_unchanged w u db {e} h = ground arith

erase_loop-fails :
    (w : World) (k i : ℕ) (qs : List (Db → Db)) (db : Db)
    → i < length qs
    → w.fails (Site.erase_statement (k + i)) ≡ true
    → erase_loop w k qs db ≡ none
unfolding erase_loop
erase_loop-fails w k i [] db h f = absurd (omega (arith, h))
erase_loop-fails w k zero (q ∷ qs) db h f = ground (arith, f)
erase_loop-fails w k (suc i) (q ∷ qs) db h f =
    ground (arith, erase_loop-fails w (suc k) i qs (q db), f, h)

delete_account_fails :
    (w : World) (u : String) (db : Db)
    → (w.fails Site.erase_begin ≡ true)
      ⊎ ((w.fails Site.erase_commit ≡ true)
          ⊎ ((i : ℕ) × (i < 10) × (w.fails (Site.erase_statement i) ≡ true)))
    → is_ok (delete_account w u db).0 ≡ false
unfolding delete_account
delete_account_fails w u db (inl h) = ground (arith, h)
delete_account_fails w u db (inr (inl h)) = ground (arith, h)
delete_account_fails w u db (inr (inr (i, h, f))) = ground (
  arith,
  erase_loop-fails w 0 i (erase_statements u) db (unfold erase_statements in h)
      (subst (λ j. w.fails (Site.erase_statement j) ≡ true) (omega arith) f),
)

-- When the transaction cannot be begun, any of the ten statements fails, or the commit fails, the
-- deletion returns an error, and the account and all else stay as they were.
pub delete_account_atomic :
    (w : World) (u : String) (db : Db)
    → (w.fails Site.erase_begin ≡ true)
      ⊎ ((w.fails Site.erase_commit ≡ true)
          ⊎ ((i : ℕ) × (i < 10) × (w.fails (Site.erase_statement i) ≡ true)))
    → (e : String) × (delete_account w u db ≡ (err e, db))
delete_account_atomic w u db h =
    failed_result (delete_account w u db) db (delete_account_fails w u db h)
      (λ e. delete_account_unchanged w u db {e = e})

-- After an erasure that succeeded, no friendship, waiting message, conversation, membership of a
-- conversation, block, report, session, reset token, QR login or account names the user in the
-- columns that its statement tests: of a report that is the reporter, so that a report about the user
-- may stay. The tables of servers and channels
-- are not looked at: the user's memberships, servers and channel messages all stay.
pub delete_account-erases :
    (w : World) (u : String) (db : Db) {db' : Db}
    → delete_account w u db ≡ (ok tt, db')
    → (any_row (λ f. f.user_a == u || f.user_b == u) db'.friends ≡ false)
      × (any_row (λ m. m.sender == u || m.recipient == u) db'.offline_messages ≡ false)
      × (any_row (λ m. m.username == u) db'.conversation_members ≡ false)
      × (any_row (λ c. c.created_by == u) db'.conversations ≡ false)
      × (any_row (λ b. b.blocker == u || b.blocked == u) db'.blocks ≡ false)
      × (any_row (λ r. r.reporter == u) db'.abuse_reports ≡ false)
      × (any_row (λ t. t.username == u) db'.session_tokens ≡ false)
      × (any_row (λ r. r.username == u) db'.password_resets ≡ false)
      × (any_row (λ q. q.username == u) db'.qr_login_tokens ≡ false)
      × (any_row (named u) db'.users ≡ false)
      × (db'.server_members ≡ db.server_members)
      × (db'.servers ≡ db.servers)
      × (db'.channel_messages ≡ db.channel_messages)
unfolding erased
delete_account-erases w u db {db'} h = rw (delete_account_inv w u db h) (
  any_row-delete _ db.friends,
  any_row-delete _ db.offline_messages,
  any_row-delete _ db.conversation_members,
  any_row-delete _ db.conversations,
  any_row-delete _ db.blocks,
  any_row-delete _ db.abuse_reports,
  any_row-delete _ db.session_tokens,
  any_row-delete _ db.password_resets,
  any_row-delete _ db.qr_login_tokens,
  any_row-delete _ db.users,
  refl,
  refl,
  refl,
)
