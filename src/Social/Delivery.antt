-- ===== src/Social/Delivery.antt =====
-- Proofs on deliverOfflineMessages.
use mathlib.Core.List.{reverse_aux}
use skype7_reborn.Prelude.{
  ℕ, String, Bool, true, false, ◌≡◌, refl, sym, ap, ◌∙◌, List, [], ◌∷◌, some, map, ◌==◌, nat_eq,
  leb, arith, if◌then◌else◌,
}
use skype7_reborn.Prelude.Dict.{lookup}
use skype7_reborn.Prelude.Text.{append}
use skype7_reborn.Prelude.Table.{select, delete_where, any_row, order_by, insert_by}
use skype7_reborn.Prelude.Table.Keys.{Distinct, any_row-select}
use skype7_reborn.World.{World, Site}
use skype7_reborn.Wire.{NexusMessage, blank}
use skype7_reborn.Db.{OfflineMessage}
use skype7_reborn.Db.Keys.{same_letter}
use skype7_reborn.Server.{Server, send, set_db}
use skype7_reborn.Server.Effects.{conns-send}
use skype7_reborn.Social.Offline.{
  waiting, send_rows, delete_rows, offline_frame, deliver_offline_messages,
}

module _ {ℓ} {A : Type ℓ} where
  -- Two tests agree on the rows of a table.
  Agree : (A → Bool) → (A → Bool) → List A → Type 0
  Agree q p [] = Unit
  Agree q p (x ∷ xs) = (q x ≡ p x) × Agree q p xs

  delete_where-Agree :
      (q p : A → Bool) (xs : List A) → Agree q p xs → delete_where q xs ≡ delete_where p xs
  unfolding delete_where select Agree
  delete_where-Agree q p [] h = refl
  delete_where-Agree q p (x ∷ xs) h = ground (arith, h.0, delete_where-Agree q p xs h.1)

  -- Rows that differ from `x` do not see whether it is there.
  Agree-apart :
      (same : A → A → Bool) (x : A) (g f p : A → Bool) (ys : List A)
      → ((y : A) → same x y ≡ false → g y ≡ f y)
      → any_row (same x) ys ≡ false
      → Agree f p ys
      → Agree g p ys
  unfolding Agree any_row
  Agree-apart same x g f p [] apart none_left h = tt
  Agree-apart same x g f p (y ∷ ys) apart none_left h = (
    ground (arith, none_left, apart y, h.0),
    Agree-apart same x g f p ys apart (ground (arith, none_left)) h.1,
  )

  -- In a table with distinct keys a row has the key of a selected row exactly if it is selected.
  Agree-select :
      (same : A → A → Bool) (p : A → Bool) (xs : List A)
      → ((x : A) → same x x ≡ true)
      → ((x y : A) → same x y ≡ same y x)
      → Distinct same xs
      → Agree (λ r. any_row (same r) (select p xs)) p xs
  unfolding Agree any_row select
  Agree-select same p [] itself symm d = tt
  Agree-select same p (x ∷ xs) itself symm d = (
    ground (arith, itself x, any_row-select (same x) p xs d.0),
    Agree-apart same x _ (λ r. any_row (same r) (select p xs)) p xs
        (λ y e. ground (arith, e, symm x y)) d.0 (Agree-select same p xs itself symm d.1),
  )

  any_row-insert_by :
      (q : A → Bool) (le : A → A → Bool) (x : A) (xs : List A)
      → any_row q (insert_by le x xs) ≡ (if q x then true else any_row q xs)
  unfolding any_row insert_by
  any_row-insert_by q le x [] = refl
  any_row-insert_by q le x (y ∷ ys) = ground (arith, any_row-insert_by q le x ys)

  any_row-order_by :
      (q : A → Bool) (le : A → A → Bool) (xs : List A) → any_row q (order_by le xs) ≡ any_row q xs
  unfolding any_row order_by
  any_row-order_by q le [] = refl
  any_row-order_by q le (x ∷ xs) =
      ground (arith, any_row-insert_by q le x (order_by le xs), any_row-order_by q le xs)

  delete_where-delete :
      (q p : A → Bool) (xs : List A)
      → delete_where q (delete_where p xs) ≡ delete_where (λ x. if p x then true else q x) xs
  unfolding delete_where select
  delete_where-delete q p [] = refl
  delete_where-delete q p (x ∷ xs) = ground (arith, delete_where-delete q p xs)

  delete_where-nothing : (xs : List A) → delete_where (λ x. false) xs ≡ xs
  unfolding delete_where select
  delete_where-nothing [] = refl
  delete_where-nothing (x ∷ xs) = ground (arith, delete_where-nothing xs)

  select-delete : (p : A → Bool) (xs : List A) → select p (delete_where p xs) ≡ []
  unfolding delete_where select
  select-delete p [] = refl
  select-delete p (x ∷ xs) = ground (arith, select-delete p xs)

abbrev pub is_for : String → OfflineMessage → Bool
is_for u m = m.recipient == u

delete_rows-live :
    (w : World) (ms rows : List OfflineMessage)
    → ((id : ℕ) → w.fails (Site.offline_delete id) ≡ false)
    → delete_rows w ms rows ≡ delete_where (λ r. any_row (same_letter r) ms) rows
unfolding delete_rows any_row
delete_rows-live w [] rows live = sym (delete_where-nothing rows)
delete_rows-live w (m ∷ ms) rows live = rw (live m.id) (
    delete_rows-live w ms (delete_where (λ r. nat_eq r.id m.id) rows) live
    ∙ delete_where-delete (λ r. any_row (same_letter r) ms) (λ r. nat_eq r.id m.id) rows)

Agree-order_by :
    (le : OfflineMessage → OfflineMessage → Bool) (p : OfflineMessage → Bool)
    (xs rows : List OfflineMessage)
    → Agree (λ r. any_row (same_letter r) xs) p rows
    → Agree (λ r. any_row (same_letter r) (order_by le xs)) p rows
unfolding Agree
Agree-order_by le p xs [] h = tt
Agree-order_by le p xs (r ∷ rows) h =
    (any_row-order_by (same_letter r) le xs ∙ h.0, Agree-order_by le p xs rows h.1)

out-send :
    (c : ℕ) (m : NexusMessage) (s : Server)
    → (s.conns c).is_open ≡ true
    → (send c m s).out ≡ (c, m) ∷ s.out
unfolding send
out-send c m s lives = ground (arith, lives)

out-send_rows :
    (w : World) (c : ℕ) (ms : List OfflineMessage) (s : Server)
    → (s.conns c).is_open ≡ true
    → (send_rows w c ms s).out ≡ reverse_aux (map (λ m. (c, offline_frame w m)) ms) s.out
unfolding send_rows
out-send_rows w c [] s lives = refl
out-send_rows w c (m ∷ ms) s lives =
    out-send_rows w c ms (send c (offline_frame w m) s)
      (rw (conns-send c (offline_frame w m) s) lives)
    ∙ ap (reverse_aux (map (λ m. (c, offline_frame w m)) ms))
        (out-send c (offline_frame w m) s lives)

-- When a user is online on an open connection and no statement fails, the connection gets a frame with
-- type, sender, body and date of every row for the user, in the order of the dates, and nothing else;
-- exactly the user's rows leave the
-- table, so that no message of the user waits any more and every other user's messages still do. The
-- ids of the rows are distinct, as IsWellFormed has it.
pub deliver_offline_messages-waiting :
    (w : World) (u : String) (c : ℕ) (s : Server)
    → lookup u s.clients ≡ some c
    → (s.conns c).is_open ≡ true
    → w.fails Site.offline_select ≡ false
    → ((id : ℕ) → w.fails (Site.offline_delete id) ≡ false)
    → Distinct same_letter s.db.offline_messages
    → ((deliver_offline_messages w u s).out
        ≡ reverse_aux
            (map
              (λ m. (
                c,
                record (blank m.msg_type) {
                  sender = m.sender;
                  body = m.body;
                  status = append "offline:" (w.date_text m.created_at);
                },
              ))
              (order_by
                (λ m n. leb m.created_at n.created_at)
                (select (is_for u) s.db.offline_messages)))
            s.out)
      × ((deliver_offline_messages w u s).db.offline_messages
          ≡ delete_where (is_for u) s.db.offline_messages)
      × (waiting u (deliver_offline_messages w u s).db ≡ [])
unfolding deliver_offline_messages waiting delete_where set_db send_rows order_by offline_frame
deliver_offline_messages-waiting w u c s online lives live live' d =
    let ms = waiting u s.db in
    let rows : delete_rows w ms s.db.offline_messages
        ≡ delete_where (is_for u) s.db.offline_messages =
      delete_rows-live w ms s.db.offline_messages live'
      ∙ delete_where-Agree (λ r. any_row (same_letter r) ms) (is_for u) s.db.offline_messages
          (unfold waiting in
            Agree-order_by (λ m n. leb m.created_at n.created_at) (is_for u)
              (select (is_for u) s.db.offline_messages) s.db.offline_messages
              (Agree-select same_letter (is_for u) s.db.offline_messages (λ m. ground arith)
                (λ m n. ground arith) d)) in
    rw (online, deliver_offline_messages)
      (rw live (
        out-send_rows w c ms s lives,
        rows,
        unfold waiting in rw (rows, select-delete (is_for u) s.db.offline_messages) refl,
      ))
