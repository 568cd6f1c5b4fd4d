-- ===== src/Prelude/Table.antt =====
-- SQL tables as lists of rows in insertion order, and the statements on one table.
pub mod Rows
pub mod Keys
use Prim.Native.Nat.{ℕ, zero, suc}
use mathlib.Core.Bool.{Bool, true, false, not}
use mathlib.Core.Option.{Option, none, some}
use mathlib.Core.List.{List, [], ◌∷◌, ◌++◌}
use skype7_reborn.Prelude.Core.{if◌then◌else◌}

module _ {ℓ} {A : Type ℓ} where
  -- SELECT * WHERE p
  unfoldable pub select : (A → Bool) → List A → List A
  select p [] = []
  select p (x ∷ xs) = let rest = select p xs in if p x then x ∷ rest else rest

  -- DELETE WHERE p
  unfoldable pub delete_where : (A → Bool) → List A → List A
  unfolding select
  delete_where p = select (λ x. not (p x))

  -- UPDATE SET f WHERE p
  unfoldable pub update_where : (A → Bool) → (A → A) → List A → List A
  update_where p f [] = []
  update_where p f (x ∷ xs) = (if p x then f x else x) ∷ update_where p f xs

  -- The first row of SELECT * WHERE p
  unfoldable pub query_row : (A → Bool) → List A → Option A
  query_row p [] = none
  query_row p (x ∷ xs) = if p x then some x else query_row p xs

  unfoldable pub any_row : (A → Bool) → List A → Bool
  any_row p [] = false
  any_row p (x ∷ xs) = if p x then true else any_row p xs

  -- INSERT appends, so that a table is in the order of insertion.
  unfoldable pub insert_row : A → List A → List A
  insert_row x xs = xs ++ x ∷ []

  -- LIMIT n
  unfoldable pub limit : ℕ → List A → List A
  limit zero xs = []
  limit (suc n) [] = []
  limit (suc n) (x ∷ xs) = x ∷ limit n xs

  -- ORDER BY: `le` says that a row may stand before another; rows that may stand either way keep
  -- the order of insertion.
  unfoldable pub insert_by : (A → A → Bool) → A → List A → List A
  insert_by le x [] = x ∷ []
  insert_by le x (y ∷ ys) = let rest = insert_by le x ys in if le x y then x ∷ y ∷ ys else y ∷ rest

  unfoldable pub order_by : (A → A → Bool) → List A → List A
  unfolding insert_by
  order_by le [] = []
  order_by le (x ∷ xs) = insert_by le x (order_by le xs)

-- The rows of a join, for each row of the first table those of the second.
unfoldable pub join {ℓ κ} : {A : Type ℓ} {B : Type κ} → (A → List B) → List A → List B
join f [] = []
join f (x ∷ xs) = f x ++ join f xs
