-- ===== src/Base/Tests.antt =====
-- Boolean tests on the native numbers, and the conditional.
use Prim.Native.Nat.{ℕ, ◌≤◌, ◌<◌, compare, Ordering}
use mathlib.Core.Path.{◌≡◌, refl}
use mathlib.Core.Logic.{◌↔◌, ◌⊎◌, inl, inr}
use mathlib.Core.Bool.{Bool, true, false}
use mathlib.Core.Option.{Option, none, some}
use native.Mathlib.Omega.{arith}

-- These compute to `compare`, which `ground` and `grind` read with no lemma listed.
abbrev pub ltb : ℕ → ℕ → Bool
ltb a b = elim (compare a b) [ Ordering.lt ↦ true | _ ↦ false ]

abbrev pub leb : ℕ → ℕ → Bool
leb a b = elim (compare a b) [ Ordering.gt ↦ false | _ ↦ true ]

infix 50 ◌==◌
abbrev pub ◌==◌ : ℕ → ℕ → Bool
a == b = elim (compare a b) [ Ordering.eq ↦ true | _ ↦ false ]

infix 1 if◌then◌else◌
abbrev pub if◌then◌else◌ {ℓ} : {A : Type ℓ} → Bool → A → A → A
if true then x else y = x
if false then x else y = y

-- `omega` reads a test through such lemmas.
pub ltb→lt : (a b : ℕ) → ltb a b ≡ true → a < b
ltb→lt a b h = ground arith

pub lt→ltb : (a b : ℕ) → a < b → ltb a b ≡ true
lt→ltb a b h = ground arith

pub leb→le : (a b : ℕ) → leb a b ≡ true → a ≤ b
leb→le a b h = ground arith

pub ==_iff : (a b : ℕ) → ((a == b) ≡ true) ↔ (a ≡ b)
==_iff a b = ground arith

pub ruleset tests = (arith, ltb→lt, lt→ltb, leb→le)

-- To split on a computed value and keep the equation.
pub Bool-cases : (b : Bool) → (b ≡ true) ⊎ (b ≡ false)
Bool-cases true = inl refl
Bool-cases false = inr refl

pub Option-cases {ℓ} : {A : Type ℓ} (o : Option A) → (o ≡ none) ⊎ ((a : A) × (o ≡ some a))
Option-cases none = inl refl
Option-cases (some a) = inr (a, refl)

-- A result is there and has the property; what is there has it.
abbrev pub Yields {ℓ} : {A : Type ℓ} → (A → Type 0) → Option A → Type 0
Yields P none = ⊥
Yields P (some a) = P a

abbrev pub Ensures {ℓ} : {A : Type ℓ} → (A → Type 0) → Option A → Type 0
Ensures P none = Unit {0}
Ensures P (some a) = P a

-- `Option::or` of two results.
abbrev pub or_else {ℓ} : {A : Type ℓ} → Option A → Option A → Option A
or_else none b = b
or_else (some a) b = some a

pub Yields-or_else {ℓ} :
    {A : Type ℓ} (P : A → Type 0) (a b : Option A)
    → Ensures P a
    → Yields P b
    → Yields P (or_else a b)
Yields-or_else P none b h k = k
Yields-or_else P (some x) b h k = h

pub Ensures-or_else {ℓ} :
    {A : Type ℓ} (P : A → Type 0) (a b : Option A)
    → Ensures P a
    → Ensures P b
    → Ensures P (or_else a b)
Ensures-or_else P none b h k = k
Ensures-or_else P (some x) b h k = h

-- `Option::and_then`.
abbrev pub and_then {ℓ κ} : {A : Type ℓ} {B : Type κ} → Option A → (A → Option B) → Option B
and_then none f = none
and_then (some a) f = f a

pub Ensures-and_then {ℓ κ} :
    {A : Type ℓ} {B : Type κ} (Q : A → Type 0) (P : B → Type 0) (o : Option A) (f : A → Option B)
    → Ensures Q o
    → ((a : A) → Q a → Ensures P (f a))
    → Ensures P (and_then o f)
Ensures-and_then Q P none f h k = tt
Ensures-and_then Q P (some a) f h k = k a h

pub Ensures-bind {ℓ κ} :
    {A : Type ℓ} {B : Type κ} (P : B → Type 0) (o : Option A) (f : A → Option B)
    → ((a : A) → Ensures P (f a))
    → Ensures P (and_then o f)
Ensures-bind P none f k = tt
Ensures-bind P (some a) f k = k a

pub Ensures-of {ℓ} :
    {A : Type ℓ} (P : A → Type 0) (o : Option A) → ((a : A) → o ≡ some a → P a) → Ensures P o
Ensures-of P none h = tt
Ensures-of P (some a) h = h a refl

pub Yields-mono {ℓ} :
    {A : Type ℓ} (P Q : A → Type 0) (o : Option A) → ((a : A) → P a → Q a) → Yields P o → Yields Q o
Yields-mono P Q none h y = y
Yields-mono P Q (some a) h y = h a y
