-- ===== src/Base/Lists.antt =====
-- Lists measured by native numbers, under the library's names, and the searches that the program
-- makes of them (`find`, `any`, `all`, `filter` with a Boolean test).
use Prim.Native.Nat.{◌<◌, ℕ, zero, suc, ◌+◌, min}
use mathlib.Core.Path.{◌≡◌, refl, sym, ap, subst, ◌∙◌}
use mathlib.Core.Bool.{Bool, true, false, ◌||◌, ◌&&◌}
use mathlib.Core.List.{List, [], ◌∷◌, ◌++◌}
use mathlib.Core.Option.{Option, none, some}
use native.Mathlib.Omega.{arith}
use better_ccflare_rs.Base.Tests.{if◌then◌else◌, Bool-cases}
use mathlib.Core.Logic.{◌⊎◌, inl, inr}

module _ {ℓ} {A : Type ℓ} where
  abbrev pub length : List A → ℕ
  length [] = 0
  length (x ∷ xs) = suc (length xs)

  abbrev pub get_elem? : List A → ℕ → Option A
  get_elem? [] i = none
  get_elem? (x ∷ xs) zero = some x
  get_elem? (x ∷ xs) (suc i) = get_elem? xs i

  abbrev pub take : ℕ → List A → List A
  take zero xs = []
  take (suc n) [] = []
  take (suc n) (x ∷ xs) = x ∷ take n xs

  pub length-append : (xs ys : List A) → length (xs ++ ys) ≡ length xs + length ys
  length-append [] ys = omega arith
  length-append (x ∷ xs) ys = omega (arith, length-append xs ys)

  pub length-take : (n : ℕ) (xs : List A) → length (take n xs) ≡ min n (length xs)
  length-take zero xs = omega arith
  length-take (suc n) [] = omega arith
  length-take (suc n) (x ∷ xs) = omega (arith, length-take n xs)

-- The iterator methods `any`, `all`, `filter` and `find` with a Boolean closure.
module _ {ℓ} {A : Type ℓ} where
  abbrev pub any : (A → Bool) → List A → Bool
  any p [] = false
  any p (x ∷ xs) = p x || any p xs

  abbrev pub all : (A → Bool) → List A → Bool
  all p [] = true
  all p (x ∷ xs) = p x && all p xs

  abbrev pub filter : (A → Bool) → List A → List A
  filter p [] = []
  filter p (x ∷ xs) = let rest = filter p xs in if p x then x ∷ rest else rest

  abbrev pub find : (A → Bool) → List A → Option A
  find p [] = none
  find p (x ∷ xs) = let rest = find p xs in if p x then some x else rest

-- Membership, and a property of every entry, by recursion.
abbrev pub In : {A : Type 0} → A → List A → Type 0
In a [] = ⊥
In a (x ∷ xs) = (a ≡ x) ⊎ In a xs

abbrev pub All {ℓ κ} : {A : Type ℓ} → (A → Type κ) → List A → Type κ
All P [] = Unit
All P (x ∷ xs) = P x × All P xs

module _ {A : Type 0} where
  -- What `any` answers, in terms of the entries.
  pub any-In : (p : A → Bool) (xs : List A) → any p xs ≡ true → (x : A) × In x xs × (p x ≡ true)
  any-In p [] h = cc
  any-In p (x ∷ xs) h = elim (Bool-cases (p x)) [
    | inl e ↦ (x, inl refl, e)
    | inr e ↦ let (y, i, q) = any-In p xs (rw e at h) in (y, inr i, q)
  ]

  pub In-any : (p : A → Bool) (x : A) (xs : List A) → In x xs → p x ≡ true → any p xs ≡ true
  In-any p x [] i h = absurd i
  In-any p x (y ∷ ys) (inl e) h = ground arith
  In-any p x (y ∷ ys) (inr i) h = ground (arith, In-any p x ys i h)

  pub any-false :
      (p : A → Bool) (xs : List A) → ((x : A) → In x xs → p x ≡ false) → any p xs ≡ false
  any-false p [] h = refl
  any-false p (x ∷ xs) h = rw (h x (inl refl)) (any-false p xs (λ y i. h y (inr i)))

  pub In-filter : (p : A → Bool) (x : A) (xs : List A) → In x (filter p xs) → In x xs × (p x ≡ true)
  In-filter p x [] i = absurd i
  In-filter p x (y ∷ ys) i = elim (Bool-cases (p y)) [
    | inl e ↦ step e (In-filter p x ys) (rw e at i)
    | inr e ↦ let (j, q) = In-filter p x ys (rw e at i) in (inr j, q)
  ]
    where
      step :
          p y ≡ true
          → (In x (filter p ys) → In x ys × (p x ≡ true))
          → In x (y ∷ filter p ys)
          → In x (y ∷ ys) × (p x ≡ true)
      step e ih (inl h) = (inl h, rw h e)
      step e ih (inr j) = let (k, q) = ih j in (inr k, q)

  pub filter-In : (p : A → Bool) (x : A) (xs : List A) → In x xs → p x ≡ true → In x (filter p xs)
  filter-In p x [] i h = absurd i
  filter-In p x (y ∷ ys) (inl e) h = rw (ap p (sym e) ∙ h) (inl e)
  filter-In p x (y ∷ ys) (inr i) h = elim (Bool-cases (p y)) [
    | inl e ↦ rw e (inr (filter-In p x ys i h))
    | inr e ↦ rw e (filter-In p x ys i h)
  ]

  pub All-In {κ} : (P : A → Type κ) (x : A) (xs : List A) → All P xs → In x xs → P x
  All-In P x [] h i = absurd i
  All-In P x (y ∷ ys) h (inl e) = subst P (sym e) h.0
  All-In P x (y ∷ ys) h (inr i) = All-In P x ys h.1 i

  pub All-of_In {κ} : (P : A → Type κ) (xs : List A) → ((x : A) → In x xs → P x) → All P xs
  All-of_In P [] h = tt
  All-of_In P (x ∷ xs) h = (h x (inl refl), All-of_In P xs (λ y i. h y (inr i)))

  pub get_elem?-In : (xs : List A) (i : ℕ) (a : A) → get_elem? xs i ≡ some a → In a xs
  get_elem?-In [] i a e = cc
  get_elem?-In (x ∷ xs) zero a e = inl (cc)
  get_elem?-In (x ∷ xs) (suc i) a e = inr (get_elem?-In xs i a e)

  pub get_elem?-lt : (xs : List A) (i : ℕ) → i < length xs → (a : A) × (get_elem? xs i ≡ some a)
  get_elem?-lt [] i h = absurd (omega arith)
  get_elem?-lt (x ∷ xs) zero h = (x, refl)
  get_elem?-lt (x ∷ xs) (suc i) h = get_elem?-lt xs i (omega arith)

  pub find-In : (p : A → Bool) (xs : List A) (a : A) → find p xs ≡ some a → In a xs × (p a ≡ true)
  find-In p [] a e = cc
  find-In p (x ∷ xs) a e = elim (Bool-cases (p x)) [
    | inl q ↦ let same : a ≡ x = ground (arith, q) in (inl same, rw same q)
    | inr q ↦ let (i, r) = find-In p xs a (rw q at e) in (inr i, r)
  ]

-- Every entry is related to every later one.
abbrev pub Pairs {ℓ κ} : {A : Type ℓ} → (A → A → Type κ) → List A → Type κ
Pairs R [] = Unit
Pairs R (x ∷ xs) = All (R x) xs × Pairs R xs
