-- ===== src/Prelude/Table/Rows.antt =====
-- What the statements on one table leave to the queries after them.
use Prim.Native.Nat.{ℕ, zero, suc, ◌≤◌}
use mathlib.Core.Path.{◌≡◌, refl}
use mathlib.Core.Logic.{◌⊎◌, inl, inr}
use mathlib.Core.Bool.{Bool, true, false}
use mathlib.Core.Option.{Option, none, some}
use mathlib.Core.List.{List, [], ◌∷◌}
use native.Mathlib.Omega.{arith}
use skype7_reborn.Prelude.Core.{if◌then◌else◌, length, Bool-cases, Option-cases}
use skype7_reborn.Prelude.Table.{
  select, delete_where, update_where, query_row, any_row, insert_row, limit,
}

module _ {ℓ} {A : Type ℓ} where
  -- every row meets a test
  abbrev pub Every : (A → Bool) → List A → Type 0
  Every p [] = Unit
  Every p (x ∷ xs) = (p x ≡ true) × Every p xs

  -- The first row, or another value where there is none.
  abbrev pub or_else : Option A → Option A → Option A
  or_else none b = b
  or_else (some x) b = some x

  abbrev pub only_if : Bool → A → Option A
  only_if b x = if b then some x else none

  pub query_row-holds : (p : A → Bool) (xs : List A) {x : A} → query_row p xs ≡ some x → p x ≡ true
  unfolding query_row
  query_row-holds p [] h = cc
  query_row-holds p (y ∷ ys) {x} h = ground (arith, query_row-holds p ys {x = x})

  pub query_row-cases :
      (p : A → Bool) (xs : List A)
      → (query_row p xs ≡ none) ⊎ ((x : A) × (query_row p xs ≡ some x) × (p x ≡ true))
  query_row-cases p xs = elim (Option-cases (query_row p xs)) [
    | inl e ↦ inl e
    | inr (x, e) ↦ inr (x, e, query_row-holds p xs e)
  ]

  pub query_row-none : (p : A → Bool) (xs : List A) → any_row p xs ≡ false → query_row p xs ≡ none
  unfolding query_row any_row
  query_row-none p [] h = refl
  query_row-none p (y ∷ ys) h = ground (arith, query_row-none p ys)

  pub query_row-some :
      (p : A → Bool) (xs : List A) → any_row p xs ≡ true → (x : A) × (query_row p xs ≡ some x)
  unfolding query_row any_row
  query_row-some p [] h = absurd (ground arith)
  query_row-some p (y ∷ ys) h = elim (Bool-cases (p y)) [
    | inl e ↦ (y, rw e)
    | inr e ↦ rw e (query_row-some p ys (rw e at h))
  ]

  pub any_row-query_row :
      (p : A → Bool) (xs : List A) {x : A} → query_row p xs ≡ some x → any_row p xs ≡ true
  unfolding query_row any_row
  any_row-query_row p [] h = cc
  any_row-query_row p (y ∷ ys) {x} h = ground (arith, any_row-query_row p ys {x = x})

  pub query_row-insert :
      (p : A → Bool) (x : A) (xs : List A)
      → query_row p (insert_row x xs) ≡ or_else (query_row p xs) (only_if (p x) x)
  unfolding query_row insert_row
  query_row-insert p x [] = ground arith
  query_row-insert p x (y ∷ ys) = ground (arith, query_row-insert p x ys)

  pub any_row-insert :
      (p : A → Bool) (x : A) (xs : List A)
      → any_row p (insert_row x xs) ≡ (if any_row p xs then true else p x)
  unfolding any_row insert_row
  any_row-insert p x [] = ground arith
  any_row-insert p x (y ∷ ys) = ground (arith, any_row-insert p x ys)

  -- The row that a query with an unchanged key finds after an update.
  abbrev pub updated : (A → Bool) → (A → A) → Option A → Option A
  updated p f none = none
  updated p f (some x) = some (if p x then f x else x)

  pub query_row-update :
      (q p : A → Bool) (f : A → A) (xs : List A)
      → ((x : A) → q (f x) ≡ q x)
      → query_row q (update_where p f xs) ≡ updated p f (query_row q xs)
  unfolding query_row update_where
  query_row-update q p f [] keep = refl
  query_row-update q p f (y ∷ ys) keep = ground (arith, keep y, query_row-update q p f ys keep)

  pub any_row-update :
      (q p : A → Bool) (f : A → A) (xs : List A)
      → ((x : A) → q (f x) ≡ q x)
      → any_row q (update_where p f xs) ≡ any_row q xs
  unfolding any_row update_where
  any_row-update q p f [] keep = refl
  any_row-update q p f (y ∷ ys) keep = ground (arith, keep y, any_row-update q p f ys keep)

  pub select-Every : (p : A → Bool) (xs : List A) → Every p (select p xs)
  unfolding select
  select-Every p [] = tt
  select-Every p (y ∷ ys) = elim (Bool-cases (p y)) [
    | inl e ↦ rw e (e, select-Every p ys)
    | inr e ↦ rw e (select-Every p ys)
  ]

  pub any_row-delete : (p : A → Bool) (xs : List A) → any_row p (delete_where p xs) ≡ false
  unfolding any_row delete_where
  any_row-delete p [] = refl
  any_row-delete p (y ∷ ys) = ground (arith, any_row-delete p ys)

  -- A query whose rows a DELETE spares is not changed by it.
  pub query_row-delete :
      (q p : A → Bool) (xs : List A)
      → ((x : A) → q x ≡ true → p x ≡ false)
      → query_row q (delete_where p xs) ≡ query_row q xs
  unfolding query_row delete_where
  query_row-delete q p [] spare = refl
  query_row-delete q p (y ∷ ys) spare = ground (arith, spare y, query_row-delete q p ys spare)

  pub length-limit : (n : ℕ) (xs : List A) → length (limit n xs) ≤ n
  unfolding limit
  length-limit zero xs = omega arith
  length-limit (suc n) [] = omega arith
  length-limit (suc n) (x ∷ xs) = omega (arith, length-limit n xs)
