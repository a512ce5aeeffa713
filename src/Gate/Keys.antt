-- ===== src/Gate/Keys.antt =====
-- Tables whose identifiers are keys, and sums over the rows of a table.
use specrelay.Prelude.{ℕ, ◌+◌, ◌≡◌, refl, none, some, List, [], ◌∷◌, arith, All, nat_eq}
use specrelay.Gate.{Row, find_row, put_row}

-- No two rows have the same identifier.
abbrev pub IsKeyed : {X : Type 0} → List (Row X) → Type 0
IsKeyed [] = Unit
IsKeyed (r ∷ rs) = (find_row r.id rs ≡ none) × IsKeyed rs

unfoldable pub sum_rows : {X : Type 0} → (Row X → ℕ) → List (Row X) → ℕ
sum_rows w [] = 0
sum_rows w (r ∷ rs) = w r + sum_rows w rs

module _ {X : Type 0} where
  find_row-put_row-none :
      (id : ℕ) (r' : Row X) (rs : List (Row X))
      → find_row id rs ≡ none
      → find_row id (put_row r' rs) ≡ none
  unfolding find_row put_row
  find_row-put_row-none id r' [] h = refl
  find_row-put_row-none id r' (x ∷ rs) h = ground (arith, find_row-put_row-none id r' rs)

  pub put_row-IsKeyed : (r' : Row X) (rs : List (Row X)) → IsKeyed rs → IsKeyed (put_row r' rs)
  unfolding put_row
  put_row-IsKeyed r' [] h = tt
  put_row-IsKeyed r' (x ∷ rs) h =
      ground (arith, put_row-IsKeyed r' rs h.1, find_row-put_row-none x.id r' rs h.0)

  -- Replacing the row that is found changes a sum by that row's share.
  pub sum_rows-put_row :
      (w : Row X → ℕ) (r' : Row X) (rs : List (Row X)) {r : Row X}
      → find_row r'.id rs ≡ some r
      → sum_rows w (put_row r' rs) + w r ≡ sum_rows w rs + w r'
  unfolding find_row put_row sum_rows
  sum_rows-put_row w r' [] h = cc
  sum_rows-put_row w r' (x ∷ rs) {r} h = ground (arith, sum_rows-put_row w r' rs {r = r})

  find_row-later :
      (x y : Row X) (rs : List (Row X))
      → find_row x.id rs ≡ none
      → find_row y.id rs ≡ some y
      → find_row y.id (x ∷ rs) ≡ some y
  unfolding find_row
  find_row-later x y rs absent found = ground arith

  All-later :
      (x : Row X) (ys rs : List (Row X))
      → find_row x.id rs ≡ none
      → All (λ y. find_row y.id rs ≡ some y) ys
      → All (λ y. find_row y.id (x ∷ rs) ≡ some y) ys
  All-later x [] rs absent h = tt
  All-later x (y ∷ ys) rs absent h =
      (find_row-later x y rs absent h.0, All-later x ys rs absent h.1)

  find_row-head : (x : Row X) (rs : List (Row X)) → find_row x.id (x ∷ rs) ≡ some x
  unfolding find_row
  find_row-head x rs = ground arith

  -- In a keyed table every row is the one that its identifier finds.
  pub IsKeyed-found : (rs : List (Row X)) → IsKeyed rs → All (λ r. find_row r.id rs ≡ some r) rs
  IsKeyed-found [] h = tt
  IsKeyed-found (x ∷ rs) h = (find_row-head x rs, All-later x rs rs h.0 (IsKeyed-found rs h.1))
