-- ===== src/Integrity/Social.antt =====
-- The constraints of the tables under friends, blocks, reports and waiting messages.
use skype7_reborn.Prelude.{
  ℕ, suc, String, Bool, false, ◌≡◌, refl, eq_iff, leb, arith, List, [], ◌∷◌, Bool-cases, inl, inr,
  nat_eq,
}
use skype7_reborn.Prelude.Table.{any_row, insert_row, delete_where}
use skype7_reborn.Prelude.Table.Rows.{Every}
use skype7_reborn.Prelude.Table.Keys.{Distinct-update, Distinct-insert, Distinct-delete, Distinct}
use skype7_reborn.World.{current_timestamp, World, Site}
use skype7_reborn.Wire.{MsgType}
use skype7_reborn.Db.{Db, Friend, Block, AbuseReport, OfflineMessage, pending}
use skype7_reborn.Db.Keys.{
  IsWellFormed, same_friends, same_block, with_friends, with_blocks, same_letter,
}
use skype7_reborn.Sql.{insert_unique}
use skype7_reborn.Server.{Server, set_db}
use skype7_reborn.Social.Friends.{
  from_to, between, send_friend_request, pending_from, set_accepted, accept_friend_request,
  reject_friend_request, remove_friend,
}
use skype7_reborn.Social.Blocks.{blocks, block_user, unblock_user, record_abuse_report}
use skype7_reborn.Social.Offline.{
  store_offline_row, store_offline_message, delete_rows, deliver_offline_messages, waiting,
}
use skype7_reborn.Integrity.Erase.{Every-delete}

insert_friend-IsWellFormed :
    (f : Friend) (db : Db)
    → IsWellFormed db
    → any_row (from_to f.user_a f.user_b) db.friends ≡ false
    → IsWellFormed (record db { friends = insert_row f db.friends })
unfolding from_to
insert_friend-IsWellFormed f db h free = with_friends h (
    Distinct-insert same_friends f db.friends
      (λ a b. ground (
        arith,
        eq_iff a.user_a b.user_a,
        eq_iff b.user_a a.user_a,
        eq_iff a.user_b b.user_b,
        eq_iff b.user_b a.user_b,
      ))
      free h.friends)

pub send_friend_request-IsWellFormed :
    (w : World) (a b : String) (db : Db)
    → IsWellFormed db
    → IsWellFormed (send_friend_request w a b db).1
unfolding send_friend_request insert_unique
send_friend_request-IsWellFormed w a b db h =
    ground
      (arith, insert_friend-IsWellFormed (record { user_a = a; user_b = b; status = pending }) db h)

pub accept_friend_request-IsWellFormed :
    (w : World) (a b : String) (db : Db)
    → IsWellFormed db
    → IsWellFormed (accept_friend_request w a b db).1
unfolding accept_friend_request set_accepted
accept_friend_request-IsWellFormed w a b db h = ground (
  arith,
  with_friends h (
      Distinct-update same_friends (pending_from a b) set_accepted db.friends (λ x y. refl)
        (λ x y. refl) h.friends),
)

delete_friends-IsWellFormed :
    (p : Friend → Bool) (db : Db)
    → IsWellFormed db
    → IsWellFormed (record db { friends = delete_where p db.friends })
delete_friends-IsWellFormed p db h =
    with_friends h (Distinct-delete same_friends p db.friends h.friends)

pub reject_friend_request-IsWellFormed :
    (w : World) (a b : String) (db : Db)
    → IsWellFormed db
    → IsWellFormed (reject_friend_request w a b db)
unfolding reject_friend_request
reject_friend_request-IsWellFormed w a b db h =
    ground (arith, delete_friends-IsWellFormed (pending_from a b) db h)

pub remove_friend-IsWellFormed :
    (w : World) (a b : String) (db : Db) → IsWellFormed db → IsWellFormed (remove_friend w a b db)
unfolding remove_friend
remove_friend-IsWellFormed w a b db h =
    ground (arith, delete_friends-IsWellFormed (between a b) db h)

insert_block-IsWellFormed :
    (b : Block) (db : Db)
    → IsWellFormed db
    → any_row (blocks b.blocker b.blocked) db.blocks ≡ false
    → IsWellFormed (record db { blocks = insert_row b db.blocks })
unfolding blocks
insert_block-IsWellFormed b db h free = with_blocks h (
    Distinct-insert same_block b db.blocks
      (λ x y. ground (
        arith,
        eq_iff x.blocker y.blocker,
        eq_iff y.blocker x.blocker,
        eq_iff x.blocked y.blocked,
        eq_iff y.blocked x.blocked,
      ))
      free h.blocks)

pub block_user-IsWellFormed :
    (w : World) (a b : String) (db : Db) → IsWellFormed db → IsWellFormed (block_user w a b db).1
unfolding block_user
block_user-IsWellFormed w a b db h = ground (
  arith,
  insert_block-IsWellFormed (record { blocker = a; blocked = b; created_at = current_timestamp w })
      db h,
)

pub unblock_user-IsWellFormed :
    (w : World) (a b : String) (db : Db) → IsWellFormed db → IsWellFormed (unblock_user w a b db).1
unfolding unblock_user
unblock_user-IsWellFormed w a b db h =
    ground (arith, with_blocks h (Distinct-delete same_block (blocks a b) db.blocks h.blocks))

-- Rows up to an id, and a row with the next one.
pub Every-next {ℓ} :
    {A : Type ℓ} (id : A → ℕ) (n : ℕ) (x : A) (xs : List A)
    → id x ≡ suc n
    → Every (λ y. leb (id y) n) xs
    → Every (λ y. leb (id y) (suc n)) (insert_row x xs)
unfolding insert_row
Every-next id n x [] e h = (ground arith, tt)
Every-next id n x (y ∷ ys) e h = (ground arith, Every-next id n x ys e h.1)

next_free {ℓ} :
    {A : Type ℓ} (id : A → ℕ) (n : ℕ) (x : A) (xs : List A)
    → id x ≡ suc n
    → Every (λ y. leb (id y) n) xs
    → any_row (λ y. nat_eq (id x) (id y)) xs ≡ false
unfolding any_row
next_free id n x [] e h = refl
next_free id n x (y ∷ ys) e h = ground (arith, e, h.0, next_free id n x ys e h.1)

pub Distinct-next {ℓ} :
    {A : Type ℓ} (id : A → ℕ) (n : ℕ) (x : A) (xs : List A)
    → id x ≡ suc n
    → Every (λ y. leb (id y) n) xs
    → Distinct (λ a b. nat_eq (id a) (id b)) xs
    → Distinct (λ a b. nat_eq (id a) (id b)) (insert_row x xs)
Distinct-next id n x xs e h d =
    Distinct-insert (λ a b. nat_eq (id a) (id b)) x xs (λ a b. ground arith)
      (next_free id n x xs e h) d

insert_report-IsWellFormed :
    (r : AbuseReport) (db : Db)
    → IsWellFormed db
    → r.id ≡ suc db.reports_last
    → IsWellFormed (record db {
      abuse_reports = insert_row r db.abuse_reports;
      reports_last = suc db.reports_last;
    })
insert_report-IsWellFormed r db h e =
    let ids =
      Every-next (λ (x : AbuseReport). x.id) db.reports_last r db.abuse_reports e h.report_ids in
    let keys =
      Distinct-next (λ (x : AbuseReport). x.id) db.reports_last r db.abuse_reports e h.report_ids
        h.report_keys in
    assumption

pub record_abuse_report-IsWellFormed :
    (w : World) (reporter subject reason body : String) (db : Db)
    → IsWellFormed db
    → IsWellFormed (record_abuse_report w reporter subject reason body db).1
unfolding record_abuse_report
record_abuse_report-IsWellFormed w reporter subject reason body db h =
    grind (arith, insert_report-IsWellFormed)

insert_offline-IsWellFormed :
    (m : OfflineMessage) (db : Db)
    → IsWellFormed db
    → m.id ≡ suc db.offline_last
    → IsWellFormed (record db {
      offline_messages = insert_row m db.offline_messages;
      offline_last = suc db.offline_last;
    })
insert_offline-IsWellFormed m db h e =
    let ids =
      Every-next (λ (x : OfflineMessage). x.id) db.offline_last m db.offline_messages e
        h.offline_ids in
    let keys =
      Distinct-next (λ (x : OfflineMessage). x.id) db.offline_last m db.offline_messages e
        h.offline_ids h.offline_keys in
    assumption

pub store_offline_row-IsWellFormed :
    (w : World) (sender u body : String) (type : MsgType) (convo : String) (db : Db)
    → IsWellFormed db
    → IsWellFormed (store_offline_row w sender u body type convo db)
unfolding store_offline_row
store_offline_row-IsWellFormed w sender u body type convo db h =
    grind (arith, insert_offline-IsWellFormed)

pub store_offline_message-IsWellFormed :
    (w : World) (sender u body : String) (type : MsgType) (db : Db)
    → IsWellFormed db
    → IsWellFormed (store_offline_message w sender u body type db)
unfolding store_offline_message
store_offline_message-IsWellFormed w sender u body type db h =
    store_offline_row-IsWellFormed w sender u body type "" db h

delete_rows-Every :
    (w : World) (ms rows : List OfflineMessage) (p : OfflineMessage → Bool)
    → Every p rows
    → Every p (delete_rows w ms rows)
unfolding delete_rows
delete_rows-Every w [] rows p h = h
delete_rows-Every w (m ∷ ms) rows p h = elim (Bool-cases (w.fails (Site.offline_delete m.id))) [
  | inl e ↦ rw e (delete_rows-Every w ms rows p h)
  | inr e ↦ rw e (delete_rows-Every w ms _ p (Every-delete _ p rows h))
]

delete_rows-Distinct :
    (w : World) (ms rows : List OfflineMessage)
    → Distinct same_letter rows
    → Distinct same_letter (delete_rows w ms rows)
unfolding delete_rows
delete_rows-Distinct w [] rows h = h
delete_rows-Distinct w (m ∷ ms) rows h = elim (Bool-cases (w.fails (Site.offline_delete m.id))) [
  | inl e ↦ rw e (delete_rows-Distinct w ms rows h)
  | inr e ↦ rw e (delete_rows-Distinct w ms _ (Distinct-delete same_letter _ rows h))
]

pub delete_rows-IsWellFormed :
    (w : World) (ms : List OfflineMessage) (db : Db)
    → IsWellFormed db
    → IsWellFormed (record db { offline_messages = delete_rows w ms db.offline_messages })
delete_rows-IsWellFormed w ms db h =
    let ids =
      delete_rows-Every w ms db.offline_messages (λ m. leb m.id db.offline_last) h.offline_ids in
    let keys = delete_rows-Distinct w ms db.offline_messages h.offline_keys in assumption

pub deliver_offline_messages-IsWellFormed :
    (w : World) (u : String) (s : Server)
    → IsWellFormed s.db
    → IsWellFormed (deliver_offline_messages w u s).db
unfolding deliver_offline_messages set_db
deliver_offline_messages-IsWellFormed w u s h =
    ground (arith, delete_rows-IsWellFormed w (waiting u s.db) s.db h)
