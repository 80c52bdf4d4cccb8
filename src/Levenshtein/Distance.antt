-- ===== src/Levenshtein/Distance.antt =====
-- The table of crates/cli/src/levenshtein.rs and the recursive edit distance.
use better_ccflare_rs.Base.{
  ℕ, suc, ◌+◌, min, ◌≡◌, refl, ap, ◌∙◌, List, [], ◌∷◌, arith, ◌==◌, if◌then◌else◌, length,
}
use better_ccflare_rs.Levenshtein.{Bytes, count_from, cells, next_row, rows, last, distance}

-- The edit distance by recursion: from two texts, read from the end, an edit deletes, inserts or
-- replaces the last byte.
pub edit : Bytes → Bytes → ℕ
edit [] bs = length bs
edit (a ∷ xs) [] = suc (length xs)
edit (a ∷ xs) (b ∷ bs) =
    let cost = if a == b then 0 else 1 in
    min (min (edit xs (b ∷ bs) + 1) (edit (a ∷ xs) bs + 1)) (edit xs bs + cost)

-- `reverse` with what is read so far.
pub onto : Bytes → Bytes → Bytes
onto [] acc = acc
onto (b ∷ bs) acc = onto bs (b ∷ acc)

-- The row of the table for the prefix `xs`: its distances from ever longer prefixes.
row : Bytes → Bytes → Bytes → List ℕ
row xs ys [] = edit xs ys ∷ []
row xs ys (b ∷ bs) = edit xs ys ∷ row xs (b ∷ ys) bs

above : Bytes → Bytes → Bytes → List ℕ
above xs ys [] = []
above xs ys (b ∷ bs) = row xs (b ∷ ys) bs

cells-row :
    (a : ℕ) (bs : Bytes) (xs ys : Bytes)
    → cells a bs (edit xs ys) (edit (a ∷ xs) ys) (above xs ys bs) ≡ above (a ∷ xs) ys bs
unfolding cells above row edit
cells-row a [] xs ys = refl
cells-row a (b ∷ []) xs ys = refl
cells-row a (b ∷ c ∷ bs) xs ys =
    ap (λ (r : List ℕ). edit (a ∷ xs) (b ∷ ys) ∷ r) (cells-row a (c ∷ bs) xs (b ∷ ys))

next_row-row :
    (a : ℕ) (bs xs : Bytes) → next_row (suc (length xs)) a bs (row xs [] bs) ≡ row (a ∷ xs) [] bs
unfolding next_row row edit above cells
next_row-row a [] xs = refl
next_row-row a (b ∷ bs) xs = ap (λ r. suc (length xs) ∷ r) (cells-row a (b ∷ bs) xs [])

rows-row :
    (rest bs xs : Bytes) → rows (suc (length xs)) rest bs (row xs [] bs) ≡ row (onto rest xs) [] bs
unfolding rows onto
rows-row [] bs xs = refl
rows-row (a ∷ rest) bs xs =
    ap (rows (suc (suc (length xs))) rest bs) (next_row-row a bs xs) ∙ rows-row rest bs (a ∷ xs)

count_from-row : (ys bs : Bytes) → count_from (length ys) bs ≡ row [] ys bs
unfolding count_from row edit
count_from-row ys [] = refl
count_from-row ys (b ∷ bs) = ap (λ r. length ys ∷ r) (count_from-row (b ∷ ys) bs)

last-row : (xs ys bs : Bytes) → last (row xs ys bs) ≡ edit xs (onto bs ys)
unfolding last row onto
last-row xs ys [] = refl
last-row xs ys (b ∷ []) = last-row xs (b ∷ ys) []
last-row xs ys (b ∷ c ∷ bs) = last-row xs (b ∷ ys) (c ∷ bs)

length-onto : (bs acc : Bytes) → length (onto bs acc) ≡ length bs + length acc
unfolding onto
length-onto [] acc = omega arith
length-onto (b ∷ bs) acc = omega (arith, length-onto bs (b ∷ acc))

edit-nil : (xs : Bytes) → edit xs [] ≡ length xs
unfolding edit
edit-nil [] = refl
edit-nil (x ∷ xs) = refl

-- The program's two rows compute the recursive edit distance, its short cuts for an empty text
-- included.
pub distance-edit : (a b : Bytes) → distance a b ≡ edit (onto a []) (onto b [])
unfolding distance onto edit
distance-edit [] b = omega (arith, length-onto b [])
distance-edit (x ∷ a) [] = ground (arith, edit-nil (onto (x ∷ a) []), length-onto (x ∷ a) [])
distance-edit (x ∷ a) (y ∷ b) =
    let table = rows 1 (x ∷ a) (y ∷ b) (count_from 0 (y ∷ b)) in
    let last_cell : last table ≡ edit (onto (x ∷ a) []) (onto (y ∷ b) []) =
      ap last
        (ap (rows 1 (x ∷ a) (y ∷ b)) (count_from-row [] (y ∷ b)) ∙ rows-row (x ∷ a) (y ∷ b) [])
      ∙ last-row (onto (x ∷ a) []) [] (y ∷ b) in
    ground (arith, last_cell)
