-- ===== src/Account/Erase.antt =====
-- deleteAccount: ten DELETE statements in one transaction.
use skype7_reborn.Prelude.{
  ℕ, suc, String, ◌||◌, List, [], ◌∷◌, Option, none, some, ◌==◌, if◌then◌else◌, Result, ok, err,
}
use skype7_reborn.Prelude.Table.{delete_where}
use skype7_reborn.World.{World, Site}
use skype7_reborn.Db.{Db}
use skype7_reborn.Account.Login.{named}

-- The statements, in the source's order.
unfoldable pub erase_statements : String → List (Db → Db)
erase_statements u =
    (λ db. record db { friends = delete_where (λ f. f.user_a == u || f.user_b == u) db.friends })
    ∷ (λ db. record db {
      offline_messages = delete_where (λ m. m.sender == u || m.recipient == u) db.offline_messages;
    })
    ∷ (λ db. record db {
      conversation_members = delete_where (λ m. m.username == u) db.conversation_members;
    })
    ∷ (λ db. record db { conversations = delete_where (λ c. c.created_by == u) db.conversations })
    ∷ (λ db. record db { blocks = delete_where (λ b. b.blocker == u || b.blocked == u) db.blocks })
    ∷ (λ db. record db { abuse_reports = delete_where (λ r. r.reporter == u) db.abuse_reports })
    ∷ (λ db. record db { session_tokens = delete_where (λ t. t.username == u) db.session_tokens })
    ∷ (λ db. record db { password_resets = delete_where (λ r. r.username == u) db.password_resets })
    ∷ (λ db. record db { qr_login_tokens = delete_where (λ q. q.username == u) db.qr_login_tokens })
    ∷ (λ db. record db { users = delete_where (named u) db.users })
    ∷ []

-- The loop over the statements; `none` when one of them fails.
unfoldable pub erase_loop : World → ℕ → List (Db → Db) → Db → Option Db
erase_loop w i [] db = some db
erase_loop w i (q ∷ qs) db =
    let rest = erase_loop w (suc i) qs (q db) in
    if w.fails (Site.erase_statement i) then none else rest

abbrev pub erase_failed : String
erase_failed = "deleteAccount"

unfoldable pub delete_account : World → String → Db → Result (Unit {0}) × Db
delete_account w username db =
    if w.fails Site.erase_begin
    then (err (w.error_text Site.erase_begin), db)
    else elim (erase_loop w 0 (erase_statements username) db) [
      | none ↦ (err erase_failed, db)
      | some db' ↦
          if w.fails Site.erase_commit
          then (err (w.error_text Site.erase_commit), db)
          else (ok tt, db')
    ]
