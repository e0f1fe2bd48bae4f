-- ===== src/Prelude/Rows.antt =====
-- Tables as lists of rows: what a statement with a condition selects, deletes and updates.
use mathlib.Core.Bool.{Bool, false, not, ◌||◌}
use mathlib.Core.List.{List, [], ◌∷◌}
use dns_server_mandiri.Prelude.Tests.{if◌then◌else◌}

module _ {ℓ} {A : Type ℓ} where
  -- `WHERE`
  abbrev pub where_rows : (A → Bool) → List A → List A
  where_rows p (row ∷ rows) = if p row then row ∷ where_rows p rows else where_rows p rows
  where_rows p [] = []

  -- `DELETE ... WHERE`
  abbrev pub delete_where : (A → Bool) → List A → List A
  delete_where p rows = where_rows (λ row. not (p row)) rows

  -- `UPDATE ... WHERE`
  abbrev pub update_where : (A → Bool) → (A → A) → List A → List A
  update_where p f (row ∷ rows) = (if p row then f row else row) ∷ update_where p f rows
  update_where p f [] = []

  -- A row that meets the condition, as a uniqueness constraint looks for it.
  abbrev pub any_row : (A → Bool) → List A → Bool
  any_row p (row ∷ rows) = p row || any_row p rows
  any_row p [] = false

  abbrev pub reverse_onto : List A → List A → List A
  reverse_onto (row ∷ rows) done = reverse_onto rows (row ∷ done)
  reverse_onto [] done = done
