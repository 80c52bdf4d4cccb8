-- ===== src/Base/Sort.antt =====
-- `slice::sort_by`: a stable sort by a comparison. An entry moves behind another only where the
-- comparison of the two says `Greater`.
use Prim.Native.Nat.{Ordering, suc}
use native.Mathlib.Omega.{arith}
use mathlib.Core.Path.{◌≡◌, refl, ap, ◌∙◌}
use mathlib.Core.Logic.{inl, inr}
use mathlib.Core.Bool.{Bool, true, false}
use mathlib.Core.List.{List, [], ◌∷◌, Perm}
use mathlib.Core.List.Perm
use better_ccflare_rs.Base.Tests.{if◌then◌else◌, Bool-cases}
use better_ccflare_rs.Base.Lists.{Pairs, All, length}

abbrev pub is_gt : Ordering → Bool
is_gt Ordering.gt = true
is_gt _ = false

module _ {ℓ} {A : Type ℓ} (cmp : A → A → Ordering) where
  pub insert : A → List A → List A
  insert x [] = x ∷ []
  insert x (y ∷ ys) = let rest = insert x ys in if is_gt (cmp x y) then y ∷ rest else x ∷ y ∷ ys

  unfoldable pub sort_by : List A → List A
  unfolding insert
  sort_by [] = []
  sort_by (x ∷ xs) = insert x (sort_by xs)

  insert-perm : (x : A) (xs : List A) → Perm (insert x xs) (x ∷ xs)
  unfolding insert
  insert-perm x [] = Perm.refl (x ∷ [])
  insert-perm x (y ∷ ys) = elim (Bool-cases (is_gt (cmp x y))) [
    | inl e ↦ rw e (Perm.trans (Perm.cons y (insert-perm x ys)) (Perm.swap x y ys))
    | inr e ↦ rw e (Perm.refl (x ∷ y ∷ ys))
  ]

  -- The sorted slice holds the entries of the given one, as often.
  pub sort_by-perm : (xs : List A) → Perm (sort_by xs) xs
  unfolding sort_by
  sort_by-perm [] = Perm.refl []
  sort_by-perm (x ∷ xs) = Perm.trans (insert-perm x (sort_by xs)) (Perm.cons x (sort_by-perm xs))

-- As many entries as before.
module _ {ℓ} {A : Type ℓ} (cmp : A → A → Ordering) where
  length-insert : (x : A) (xs : List A) → length (insert cmp x xs) ≡ suc (length xs)
  unfolding insert
  length-insert x [] = refl
  length-insert x (y ∷ ys) = ground (arith, length-insert x ys)

  pub length-sort_by : (xs : List A) → length (sort_by cmp xs) ≡ length xs
  unfolding sort_by
  length-sort_by [] = refl
  length-sort_by (x ∷ xs) = length-insert x (sort_by cmp xs) ∙ ap suc (length-sort_by xs)

-- No entry comes before one that the comparison puts first.
module _ {ℓ} {A : Type ℓ} (cmp : A → A → Ordering) where
  abbrev pub Sorted : List A → Type 0
  Sorted = Pairs (λ x y. is_gt (cmp x y) ≡ false)

module _ {ℓ κ} {A : Type ℓ} (cmp : A → A → Ordering) (P : A → Type κ) where
  insert-All : (x : A) (xs : List A) → P x → All P xs → All P (insert cmp x xs)
  unfolding insert
  insert-All x [] p h = (p, h)
  insert-All x (y ∷ ys) p h = elim (Bool-cases (is_gt (cmp x y))) [
    | inl e ↦ rw e (h.0, insert-All x ys p h.1)
    | inr e ↦ rw e (p, h)
  ]

  pub sort_by-All : (xs : List A) → All P xs → All P (sort_by cmp xs)
  unfolding sort_by
  sort_by-All [] h = h
  sort_by-All (x ∷ xs) h = insert-All x (sort_by cmp xs) h.0 (sort_by-All xs h.1)

module _ {ℓ} {A : Type ℓ} (cmp : A → A → Ordering)
    (asym : (x y : A) → is_gt (cmp x y) ≡ true → is_gt (cmp y x) ≡ false)
    (trans : (x y z : A)
      → is_gt (cmp x y) ≡ false
      → is_gt (cmp y z) ≡ false
      → is_gt (cmp x z) ≡ false) where
  All-below :
      (x y : A) (zs : List A)
      → is_gt (cmp x y) ≡ false
      → All (λ z. is_gt (cmp y z) ≡ false) zs
      → All (λ z. is_gt (cmp x z) ≡ false) zs
  All-below x y [] e h = tt
  All-below x y (z ∷ zs) e h = (trans x y z e h.0, All-below x y zs e h.1)

  insert-Sorted : (x : A) (xs : List A) → Sorted cmp xs → Sorted cmp (insert cmp x xs)
  unfolding insert
  insert-Sorted x [] h = (tt, tt)
  insert-Sorted x (y ∷ ys) h = elim (Bool-cases (is_gt (cmp x y))) [
    | inl e ↦ rw e (
      insert-All cmp (λ z. is_gt (cmp y z) ≡ false) x ys (asym x y e) h.0,
      insert-Sorted x ys h.1,
    )
    | inr e ↦ rw e ((e, All-below x y ys e h.0), h)
  ]

  pub sort_by-Sorted : (xs : List A) → Sorted cmp (sort_by cmp xs)
  unfolding sort_by
  sort_by-Sorted [] = tt
  sort_by-Sorted (x ∷ xs) = insert-Sorted x (sort_by cmp xs) (sort_by-Sorted xs)

-- A symmetric relation between any two entries outlasts the sorting.
module _ {ℓ κ} {A : Type ℓ} (cmp : A → A → Ordering) (R : A → A → Type κ)
    (flip : (x y : A) → R x y → R y x) where
  insert-Pairs : (x : A) (xs : List A) → All (R x) xs → Pairs R xs → Pairs R (insert cmp x xs)
  unfolding insert
  insert-Pairs x [] h p = (tt, tt)
  insert-Pairs x (y ∷ ys) h p = elim (Bool-cases (is_gt (cmp x y))) [
    | inl e ↦ rw e (insert-All cmp (R y) x ys (flip x y h.0) p.0, insert-Pairs x ys h.1 p.1)
    | inr e ↦ rw e (h, p)
  ]

  pub sort_by-Pairs : (xs : List A) → Pairs R xs → Pairs R (sort_by cmp xs)
  unfolding sort_by
  sort_by-Pairs [] p = p
  sort_by-Pairs (x ∷ xs) p =
      insert-Pairs x (sort_by cmp xs) (sort_by-All cmp (R x) xs p.0) (sort_by-Pairs xs p.1)
