-- ===== src/Spaces/History.antt =====
-- Proofs on channelHistory.
use mathlib.Core.List.{reverse, reverse_aux}
use skype7_reborn.Prelude.{
  ℕ, zero, suc, ◌+◌, ◌≤◌, String, Bool, ◌&&◌, ◌||◌, true, ◌≡◌, refl, List, [], ◌∷◌, some, map, ◌==◌,
  leb, ltb, nat_eq, arith, length, Bool-cases, inl, inr, ◌⊎◌, ◌<◌,
}
use skype7_reborn.Prelude.Table.{select, limit, order_by, insert_by}
use skype7_reborn.Prelude.Table.Rows.{Every, select-Every, length-limit}
use skype7_reborn.World.{World}
use skype7_reborn.Wire.{ChannelMsg}
use skype7_reborn.Db.{Db}
use skype7_reborn.Spaces.{channel_history, channel_msg_of, in_history, page_size}

module _ {ℓ} {A : Type ℓ} where
  Every-insert_by :
      (p : A → Bool) (le : A → A → Bool) (x : A) (xs : List A)
      → p x ≡ true
      → Every p xs
      → Every p (insert_by le x xs)
  unfolding insert_by
  Every-insert_by p le x [] h k = (h, tt)
  Every-insert_by p le x (y ∷ ys) h k =
      let rest = Every-insert_by p le x ys h k.1 in
      elim (Bool-cases (le x y)) [ inl e ↦ rw e (h, k) | inr e ↦ rw e (k.0, rest) ]

  Every-order_by :
      (p : A → Bool) (le : A → A → Bool) (xs : List A) → Every p xs → Every p (order_by le xs)
  unfolding order_by
  Every-order_by p le [] h = tt
  Every-order_by p le (x ∷ xs) h =
      Every-insert_by p le x (order_by le xs) h.0 (Every-order_by p le xs h.1)

  Every-limit : (p : A → Bool) (n : ℕ) (xs : List A) → Every p xs → Every p (limit n xs)
  unfolding limit
  Every-limit p zero xs h = tt
  Every-limit p (suc n) [] h = tt
  Every-limit p (suc n) (x ∷ xs) h = (h.0, Every-limit p n xs h.1)

  Every-reverse_aux :
      (p : A → Bool) (xs acc : List A) → Every p xs → Every p acc → Every p (reverse_aux xs acc)
  Every-reverse_aux p [] acc h k = k
  Every-reverse_aux p (x ∷ xs) acc h k = Every-reverse_aux p xs (x ∷ acc) h.1 (h.0, k)

  length-reverse_aux : (xs acc : List A) → length (reverse_aux xs acc) ≡ length xs + length acc
  length-reverse_aux [] acc = omega arith
  length-reverse_aux (x ∷ xs) acc = omega (arith, length-reverse_aux xs (x ∷ acc))

  Every-map {κ} :
      {B : Type κ} (p : A → Bool) (q : B → Bool) (f : A → B) (xs : List A)
      → ((x : A) → p x ≡ true → q (f x) ≡ true)
      → Every p xs
      → Every q (map f xs)
  Every-map p q f [] keep h = tt
  Every-map p q f (x ∷ xs) keep h = (keep x h.0, Every-map p q f xs keep h.1)

  length-map {κ} : {B : Type κ} (f : A → B) (xs : List A) → length (map f xs) ≡ length xs
  length-map f [] = refl
  length-map f (x ∷ xs) = omega (arith, length-map f xs)

-- A message of the channel, older than the cursor unless that is 0.
abbrev pub in_page : String → ℕ → ChannelMsg → Bool
in_page channel before m = m.channel_id == channel && (nat_eq before 0 || ltb m.id before)

page_size_cases :
    (n : ℕ) {k : ℕ} → k ≤ page_size n → ((k ≤ n) × (n ≤ 200)) ⊎ ((k ≤ 50) × ((n ≡ 0) ⊎ (200 < n)))
unfolding page_size
page_size_cases n {k} h = ground arith

-- A page holds at most as many messages as asked for where that is between 1 and 200, at most 50 where
-- it is not, and only messages of the channel that are older than the cursor, if there is one.
pub channel_history-Every :
    (w : World) (channel : String) (before n : ℕ) (db : Db) {page : List ChannelMsg}
    → channel_history w channel before n db ≡ some page
    → Every (in_page channel before) page
      × (((length page ≤ n) × (n ≤ 200)) ⊎ ((length page ≤ 50) × ((n ≡ 0) ⊎ (200 < n))))
unfolding channel_history page_size
channel_history-Every w channel before n db {page} h =
    let rows = select (in_history channel before) db.channel_messages in
    let sorted = order_by (λ a b. leb b.id a.id) rows in
    let found = limit (page_size n) sorted in
    let here : Every (in_history channel before) found =
      Every-limit (in_history channel before) (page_size n) sorted (
        Every-order_by (in_history channel before) (λ a b. leb b.id a.id) rows
          (select-Every (in_history channel before) db.channel_messages)) in
    let same : page ≡ reverse (map channel_msg_of found) = ground (arith, h) in
    (
      rw same (
          Every-reverse_aux (in_page channel before) (map channel_msg_of found) []
            (Every-map (in_history channel before) (in_page channel before) channel_msg_of found
              (λ x k. unfold channel_msg_of in_history in k) here)
            tt),
      page_size_cases n (
          rw same (
            omega (
              arith,
              length-reverse_aux (map channel_msg_of found) [],
              length-map channel_msg_of found,
              length-limit (page_size n) sorted,
            ))),
    )
