-- ===== src/Sql.antt =====
-- How the server runs its statements: any of them may fail, an INSERT fails on a key that is taken,
-- and QueryRow fails when no row is there.
use skype7_reborn.Prelude.{
  ◌≡◌, arith, false, Bool, ◌||◌, String, List, none, some, if◌then◌else◌, Result, ok, err,
}
use skype7_reborn.Prelude.Table.{any_row, insert_row, query_row}
use skype7_reborn.World.{World, Site}

-- database/sql's ErrNoRows
abbrev pub no_rows : String
no_rows = "sql: no rows in result set"

module _ {ℓ} {A : Type ℓ} where
  -- QueryRow(…).Scan(…)
  unfoldable pub fetch : World → Site → (A → Bool) → List A → Result A
  unfolding query_row
  fetch w site p rows =
      if w.fails site
      then err (w.error_text site)
      else elim (query_row p rows) [ none ↦ err no_rows | some row ↦ ok row ]

  -- INSERT into a table where `taken` finds the rows with the same key
  unfoldable pub insert_unique : World → Site → (A → Bool) → A → List A → Result (List A)
  unfolding any_row insert_row
  insert_unique w site taken row rows =
      if w.fails site || any_row taken rows
      then err (w.error_text site)
      else ok (insert_row row rows)

  pub fetch-eq_ok :
      (w : World) (site : Site) (p : A → Bool) (rows : List A) {row : A}
      → w.fails site ≡ false
      → query_row p rows ≡ some row
      → fetch w site p rows ≡ ok row
  unfolding fetch
  fetch-eq_ok w site p rows {row} live found = rw live (rw found)

  -- What a successful query says of its row.
  pub fetch-holds :
      (w : World) (site : Site) (p : A → Bool) (rows : List A) {row : A}
      → fetch w site p rows ≡ ok row
      → query_row p rows ≡ some row
  unfolding fetch
  fetch-holds w site p rows {row} h = ground arith

  pub insert_unique_inv :
      (w : World) (site : Site) (taken : A → Bool) (row : A) (rows : List A) {rows' : List A}
      → insert_unique w site taken row rows ≡ ok rows'
      → (any_row taken rows ≡ false) × (rows' ≡ insert_row row rows)
  unfolding insert_unique
  insert_unique_inv w site taken row rows {rows'} h = ground arith
