-- ===== src/Integrity/Erase.antt =====
-- The constraints of the tables under deleteAccount.
use skype7_reborn.Prelude.{
  String, ◌≡◌, refl, arith, ok, err, List, Bool, [], ◌∷◌, not, Result, Bool-cases, inl, inr,
}
use skype7_reborn.Prelude.Table.{delete_where, select}
use skype7_reborn.Prelude.Table.Rows.{Every}
use skype7_reborn.Prelude.Table.Keys.{Distinct-delete}
use skype7_reborn.World.{World}
use skype7_reborn.Db.{Db}
use skype7_reborn.Db.Keys.{IsWellFormed}
use skype7_reborn.Account.Erase.{delete_account}
use skype7_reborn.Account.Erasure.{erased, delete_account_inv, delete_account_unchanged}

pub Every-select {ℓ} :
    {A : Type ℓ} (p q : A → Bool) (xs : List A) → Every q xs → Every q (select p xs)
unfolding select
Every-select p q [] h = tt
Every-select p q (x ∷ xs) h = elim (Bool-cases (p x)) [
  | inl e ↦ rw e (h.0, Every-select p q xs h.1)
  | inr e ↦ rw e (Every-select p q xs h.1)
]

pub Every-delete {ℓ} :
    {A : Type ℓ} (p q : A → Bool) (xs : List A) → Every q xs → Every q (delete_where p xs)
unfolding delete_where
Every-delete p q xs h = Every-select (λ x. not (p x)) q xs h

erased-IsWellFormed : (u : String) (db : Db) → IsWellFormed db → IsWellFormed (erased u db)
unfolding erased
erased-IsWellFormed u db h = record {
  users = Distinct-delete _ _ db.users h.users;
  friends = Distinct-delete _ _ db.friends h.friends;
  conversations = Distinct-delete _ _ db.conversations h.conversations;
  members = Distinct-delete _ _ db.conversation_members h.members;
  blocks = Distinct-delete _ _ db.blocks h.blocks;
  sessions = Distinct-delete _ _ db.session_tokens h.sessions;
  resets = Distinct-delete _ _ db.password_resets h.resets;
  qr_logins = Distinct-delete _ _ db.qr_login_tokens h.qr_logins;
  servers = h.servers;
  invites = h.invites;
  channels = h.channels;
  server_members = h.server_members;
  offline_ids = Every-delete _ _ db.offline_messages h.offline_ids;
  report_ids = Every-delete _ _ db.abuse_reports h.report_ids;
  message_ids = h.message_ids;
  offline_keys = Distinct-delete _ _ db.offline_messages h.offline_keys;
  report_keys = Distinct-delete _ _ db.abuse_reports h.report_keys;
  message_keys = h.message_keys;
}

pub delete_account-IsWellFormed :
    (w : World) (u : String) (db : Db) → IsWellFormed db → IsWellFormed (delete_account w u db).1
delete_account-IsWellFormed w u db h = go (delete_account w u db) refl
  where
    go : (r : Result (Unit {0}) × Db) → delete_account w u db ≡ r → IsWellFormed r.1
    go (ok _, db') e = rw (delete_account_inv w u db e) (erased-IsWellFormed u db h)
    go (err x, db') e = ground (arith, delete_account_unchanged w u db {e = x})
