-- ===== src/Prelude/Table/Keys.antt =====
-- Keys: no two rows of a table hold the same one. A key is given by the test whether two rows agree.
use mathlib.Core.Path.{◌≡◌, refl}
use mathlib.Core.Bool.{Bool, false, not}
use mathlib.Core.List.{List, [], ◌∷◌}
use mathlib.Core.Logic.{inl, inr}
use native.Mathlib.Omega.{arith}
use skype7_reborn.Prelude.Core.{if◌then◌else◌, Bool-cases}
use skype7_reborn.Prelude.Table.{select, delete_where, update_where, any_row, insert_row}
use skype7_reborn.Prelude.Table.Rows.{any_row-insert}

module _ {ℓ} {A : Type ℓ} where
  abbrev pub Distinct : (A → A → Bool) → List A → Type 0
  Distinct same [] = Unit
  Distinct same (x ∷ xs) = (any_row (same x) xs ≡ false) × Distinct same xs

  pub any_row-select :
      (q p : A → Bool) (xs : List A) → any_row q xs ≡ false → any_row q (select p xs) ≡ false
  unfolding any_row select
  any_row-select q p [] h = refl
  any_row-select q p (x ∷ xs) h = ground (arith, any_row-select q p xs)

  pub Distinct-select :
      (same : A → A → Bool) (p : A → Bool) (xs : List A)
      → Distinct same xs
      → Distinct same (select p xs)
  unfolding select
  Distinct-select same p [] h = tt
  Distinct-select same p (x ∷ xs) h = elim (Bool-cases (p x)) [
    | inl e ↦ rw e (any_row-select (same x) p xs h.0, Distinct-select same p xs h.1)
    | inr e ↦ rw e (Distinct-select same p xs h.1)
  ]

  pub Distinct-delete :
      (same : A → A → Bool) (p : A → Bool) (xs : List A)
      → Distinct same xs
      → Distinct same (delete_where p xs)
  unfolding delete_where
  Distinct-delete same p xs h = Distinct-select same (λ x. not (p x)) xs h

  any_row-update_key :
      (same : A → A → Bool) (p : A → Bool) (f : A → A) (x : A) (ys : List A)
      → ((x y : A) → same (f x) y ≡ same x y)
      → ((x y : A) → same x (f y) ≡ same x y)
      → any_row (same x) ys ≡ false
      → any_row (same (if p x then f x else x)) (update_where p f ys) ≡ false
  unfolding update_where any_row
  any_row-update_key same p f x [] left right k = refl
  any_row-update_key same p f x (y ∷ ys) left right k =
      ground (arith, left x y, left x (f y), right x y, any_row-update_key same p f x ys)

  -- An update that leaves the key of every row leaves all keys distinct.
  pub Distinct-update :
      (same : A → A → Bool) (p : A → Bool) (f : A → A) (xs : List A)
      → ((x y : A) → same (f x) y ≡ same x y)
      → ((x y : A) → same x (f y) ≡ same x y)
      → Distinct same xs
      → Distinct same (update_where p f xs)
  unfolding update_where
  Distinct-update same p f [] left right h = tt
  Distinct-update same p f (x ∷ xs) left right h =
      (any_row-update_key same p f x xs left right h.0, Distinct-update same p f xs left right h.1)

  -- A row may be appended whose key no row holds.
  pub Distinct-insert :
      (same : A → A → Bool) (x : A) (xs : List A)
      → ((a b : A) → same a b ≡ same b a)
      → any_row (same x) xs ≡ false
      → Distinct same xs
      → Distinct same (insert_row x xs)
  unfolding insert_row any_row
  Distinct-insert same x [] symm free h = (refl, tt)
  Distinct-insert same x (y ∷ ys) symm free h = (
    ground (arith, any_row-insert (same y) x ys, symm y x),
    Distinct-insert same x ys symm (ground (arith, symm y x)) h.1,
  )
