-- ===== src/Levenshtein.antt =====
-- crates/cli/src/levenshtein.rs: the edit distance, on the bytes of two texts.
pub mod Distance
use better_ccflare_rs.Base.{
  ℕ, zero, suc, ◌+◌, ◌-◌, ◌*◌, ◌/◌, ◌≤◌, ◌<◌, min, max, String, ◌≡◌, refl, sym, ap, subst, ◌∙◌, ◌≢◌,
  ◌↔◌, ◌⊎◌, inl, inr, Bool, true, false, not, ◌&&◌, ◌||◌, Option, none, some, List, [], ◌∷◌, ◌++◌,
  map, arith, str_eq, str_eq_iff, ltb, leb, ◌==◌, if◌then◌else◌, Bool-cases, length, take,
  get_elem?, filter, any, In, All, Pairs, All-In, All-of_In, length-append, length-take,
}

abbrev pub Bytes : Type 0
Bytes = List ℕ

-- `(0..=n).collect()`, from `i` on.
unfoldable pub count_from : ℕ → Bytes → List ℕ
count_from i [] = i ∷ []
count_from i (b ∷ bs) = i ∷ count_from (suc i) bs

-- The inner loop: the cells of the current row from the left neighbour, and from the previous row
-- its entry at the left and those above.
unfoldable pub cells : ℕ → Bytes → (diagonal left : ℕ) → List ℕ → List ℕ
cells a (b ∷ bs) diagonal left (up ∷ ups) =
    let cost = if a == b then 0 else 1 in
    let cell = min (min (up + 1) (left + 1)) (diagonal + cost) in cell ∷ cells a bs up cell ups
cells a _ diagonal left _ = []

unfoldable pub next_row : ℕ → ℕ → Bytes → List ℕ → List ℕ
next_row i a bs [] = []
next_row i a bs (d ∷ ups) = i ∷ cells a bs d i ups

-- The outer loop; `prev` is the row before row `i`.
unfoldable pub rows : ℕ → Bytes → Bytes → List ℕ → List ℕ
rows i [] bs prev = prev
rows i (a ∷ rest) bs prev = rows (suc i) rest bs (next_row i a bs prev)

-- `prev[n]`, which is the last entry.
unfoldable pub last : List ℕ → ℕ
last [] = 0
last (x ∷ []) = x
last (x ∷ y ∷ ys) = last (y ∷ ys)

unfoldable pub distance : Bytes → Bytes → ℕ
distance a b =
    if length a == 0
    then length b
    else if length b == 0
    then length a
    else last (rows 1 a b (count_from 0 b))
