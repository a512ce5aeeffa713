-- ===== src/Gate/Rows.antt =====
-- Reading and writing a table's rows by identifier.
use specrelay.Prelude.{ℕ, ◌≡◌, some, List, [], ◌∷◌, arith, ◌==◌, if◌then◌else◌, All, nat_eq}
use specrelay.Gate.{Row, find_row, put_row}

module _ {X : Type 0} where
  pub find_row-id : (id : ℕ) (rs : List (Row X)) {r : Row X} → find_row id rs ≡ some r → r.id ≡ id
  unfolding find_row
  find_row-id id [] h = cc
  find_row-id id (x ∷ rs) {r} h = ground (arith, find_row-id id rs {r = r})

  -- A write to a row that is there is read back, and every other row is as before.
  pub find_row-put_row :
      (id : ℕ) (r' : Row X) (rs : List (Row X)) {r : Row X}
      → find_row r'.id rs ≡ some r
      → find_row id (put_row r' rs) ≡ (if r'.id == id then some r' else find_row id rs)
  unfolding find_row put_row
  find_row-put_row id r' [] h = cc
  find_row-put_row id r' (x ∷ rs) {r} h = ground (arith, find_row-put_row id r' rs {r = r})

  pub All-put_row :
      (P : Row X → Type 0) (r' : Row X) (rs : List (Row X))
      → All P rs
      → P r'
      → All P (put_row r' rs)
  unfolding put_row
  All-put_row P r' [] h p = tt
  All-put_row P r' (x ∷ rs) h p = ground (arith, All-put_row P r' rs h.1 p)

  pub All-find_row :
      (P : Row X → Type 0) (id : ℕ) (rs : List (Row X)) {r : Row X}
      → All P rs
      → find_row id rs ≡ some r
      → P r
  unfolding find_row
  All-find_row P id [] h e = cc
  All-find_row P id (x ∷ rs) {r} h e = ground (arith, All-find_row P id rs {r = r} h.1)

  pub find_row-put_row_self :
      (id : ℕ) (r' : Row X) (rs : List (Row X)) {r : Row X}
      → r'.id ≡ id
      → find_row id rs ≡ some r
      → find_row id (put_row r' rs) ≡ some r'
  unfolding find_row put_row
  find_row-put_row_self id r' [] e h = cc
  find_row-put_row_self id r' (x ∷ rs) {r} e h =
      ground (arith, find_row-put_row_self id r' rs {r = r})
