-- ===== src/Base/Exact.antt =====
-- What holds of the arithmetic of doubles: the bounds that `max` and `min` set, and sums of
-- multiples of one power of two, which are exact below 53 bits.
use better_ccflare_rs.Base.{
  ◌%◌, leb→le, ℕ, zero, suc, ◌+◌, ◌-◌, ◌*◌, ◌/◌, ◌≤◌, ◌<◌, ◌≡◌, refl, sym, ap, subst, ◌∙◌, ◌≢◌, ◌⊎◌,
  inl, inr, true, false, List, [], ◌∷◌, arith, leb, Bool-cases, ◌^◌,
}
use native.Mathlib.Nat.{
  pow-suc, one-le-pow, pow-le-pow_right, mul-mod_left, div-one, le-div_iff_mul-le, mul-div_cancel,
}
use better_ccflare_rs.Base.Int.{◌-ℤ◌, ◌+ℤ◌, ℤ, pos}
use better_ccflare_rs.Base.Float.{F64, nan, finite}
use better_ccflare_rs.Base.Double.{
  neg_f, ◌-f◌, ◌+f◌, too_large, rounded, positive, excess, bit_steps, round_at, round, leb_f, max_f,
  min_f,
}

abbrev pub zero_f : F64
zero_f = finite (pos 0)

-- A result of `max` is at least a bound that is a number, a result of `min` at most.
pub max-bound : (x : F64) (k : ℤ) → leb_f (finite k) (max_f x (finite k)) ≡ true
max-bound x k = ground arith

pub min-bound : (x : F64) (k : ℤ) → leb_f (min_f x (finite k)) (finite k) ≡ true
min-bound x k = ground arith

pub max-grows : (x y : F64) → x ≢ nan → leb_f x (max_f x y) ≡ true
max-grows x y h = ground arith

pub pow_add : (a b : ℕ) → 2 ^ (a + b) ≡ 2 ^ a * 2 ^ b
pow_add a zero = grind arith
pow_add a (suc b) = grind (arith, pow_add a b, pow-suc 2 (a + b), pow-suc 2 b)

pub pow_pos : (e : ℕ) → 0 < 2 ^ e
pow_pos e = omega (arith, one-le-pow e 2 (omega arith))

shifted : (c n s x : ℕ) → c * 2 ^ x ≤ n / 2 ^ s → c * 2 ^ (s + x) ≤ n
shifted c n s x h =
    let low = (le-div_iff_mul-le (pow_pos s)).0 h in
    subst (λ p. c * p ≤ n) (sym (pow_add s x)) (reorder c (2 ^ x) (2 ^ s) n low)
  where
    reorder : (a b c n : ℕ) → a * b * c ≤ n → a * (c * b) ≤ n
    reorder a b c n h = grind arith

shifted_once : (n s : ℕ) → 2 ^ 52 ≤ n / 2 ^ s → 2 ^ 52 * 2 ^ (s + 0) ≤ n
shifted_once n s h = shifted (2 ^ 52) n s 0 (omega arith)

pub excess-long :
    (s : ℕ) (steps : List ℕ) (n : ℕ)
    → leb (2 ^ 52) (n / 2 ^ s) ≡ true
    → excess (s ∷ steps) n ≡ s + excess steps (n / 2 ^ s)
unfolding excess
excess-long s steps n e = ground arith

pub excess-short :
    (s : ℕ) (steps : List ℕ) (n : ℕ)
    → leb (2 ^ 52) (n / 2 ^ s) ≡ false
    → excess (s ∷ steps) n ≡ excess steps n
unfolding excess
excess-short s steps n e = ground arith

abbrev pub Leaves : ℕ → ℕ → Type 0
Leaves n x = (x ≡ 0) ⊎ (2 ^ 52 * 2 ^ x ≤ n)

Leaves-shifted : (s n x : ℕ) → 2 ^ 52 ≤ n / 2 ^ s → Leaves (n / 2 ^ s) x → Leaves n (s + x)
Leaves-shifted s n x h (inl z) = inr (rw z (shifted_once n s h))
Leaves-shifted s n x h (inr l) = inr (shifted (2 ^ 52) n s x l)

-- What the search for the length finds leaves at least 53 bits, or is nothing.
pub excess_low : (steps : List ℕ) (n : ℕ) → Leaves n (excess steps n)
unfolding excess
excess_low [] n = inl refl
excess_low (s ∷ steps) n = elim (Bool-cases (leb (2 ^ 52) (n / 2 ^ s))) [
  | inr e ↦ subst (Leaves n) (sym (excess-short s steps n e)) (excess_low steps n)
  | inl e ↦
      subst (Leaves n) (sym (excess-long s steps n e)) (
        Leaves-shifted s n (excess steps (n / 2 ^ s)) (leb→le _ _ e) (excess_low steps (n / 2 ^ s)))
]

on_grid : (s q : ℕ) → 0 < s → s * round_at q 0 s ≡ q * s
on_grid zero q p = absurd (omega arith)
on_grid (suc s) q p = grind arith

nearest : (q s d : ℕ) → 0 < s → d ≡ s → s * round_at (q * s / d) (q * s % d) d ≡ q * s
nearest q s d p e =
    subst (λ c. s * round_at (q * s / c) (q * s % c) c ≡ q * s) (sym e)
      (rw (mul-div_cancel q p, mul-mod_left q s) (on_grid s q p))

pub not_longer : (k e x : ℕ) → k < 2 ^ 53 → (x ≡ 0) ⊎ (2 ^ 52 * 2 ^ x ≤ k * 2 ^ e) → x ≤ e
not_longer k e x h (inl z) = omega arith
not_longer k e x h (inr l) = elim (Bool-cases (leb x e)) [
  | inl q ↦ leb→le x e q
  | inr q ↦
      let longer : suc e ≤ x = ground (arith, q) in
      absurd (
        clash k (2 ^ e) (2 ^ x) h l
          (subst (λ p. p ≤ 2 ^ x) (pow-suc 2 e) (pow-le-pow_right (omega arith) longer))
          (pow_pos e))
]
  where
    clash : (k a b : ℕ) → k < 2 ^ 53 → 2 ^ 52 * b ≤ k * a → a * 2 ≤ b → 0 < a → ⊥
    clash k a b h l g p = let less : k * a < 2 ^ 53 * a = grind arith in omega arith

pub regroup : (k e x : ℕ) → x ≤ e → k * 2 ^ e ≡ k * 2 ^ (e - x) * 2 ^ x
regroup k e x h = ap (λ i. k * 2 ^ i) split ∙ ap (λ p. k * p) (pow_add (e - x) x) ∙ grind arith
  where
    split : e ≡ e - x + x
    split = omega arith

-- A multiple of a power of two with a factor below 53 bits is left as it is.
pub round_exact : (k e : ℕ) → k < 2 ^ 53 → round (k * 2 ^ e) 1 ≡ k * 2 ^ e
unfolding round
round_exact k e h =
    let n : ℕ = k * 2 ^ e in
    let x : ℕ = excess bit_steps (n / 1) in
    let low : (x ≡ 0) ⊎ (2 ^ 52 * 2 ^ x ≤ n) =
      subst (λ m. (x ≡ 0) ⊎ (2 ^ 52 * 2 ^ x ≤ m)) (div-one n) (excess_low bit_steps (n / 1)) in
    subst (λ m. 2 ^ x * round_at (m / (1 * 2 ^ x)) (m % (1 * 2 ^ x)) (1 * 2 ^ x) ≡ m)
      (sym (regroup k e x (not_longer k e x h low)))
      (nearest (k * 2 ^ (e - x)) (2 ^ x) (1 * 2 ^ x) (pow_pos x) (omega arith))

-- A whole number of steps of 2 ^ e, as a double.
abbrev pub steps_of : ℕ → ℕ → F64
steps_of e n = finite (pos (n * 2 ^ e))

pub fits : (k e : ℕ) → k < 2 ^ 53 → e ≤ 2000 → k * 2 ^ e < too_large
unfolding too_large
fits k e h g =
    let small : k * 2 ^ e < 2 ^ 53 * 2 ^ e = below k (2 ^ 53) (2 ^ e) h (pow_pos e) in
    let mono : 2 ^ (53 + e) ≤ 2 ^ 2098 = pow-le-pow_right two_pos (room e g) in
    before (k * 2 ^ e) (2 ^ 53 * 2 ^ e) (2 ^ (53 + e)) (2 ^ 2098) small (pow_add 53 e) mono
  where
    two_pos : 0 < 2
    two_pos = omega arith

    room : (e : ℕ) → e ≤ 2000 → 53 + e ≤ 2098
    room e g = omega arith

    below : (k b a : ℕ) → k < b → 0 < a → k * a < b * a
    below k b a h p = grind arith

    before : (a b c d : ℕ) → a < b → c ≡ b → c ≤ d → a < d
    before a b c d h e l = omega arith

pub positive_fits : (n : ℕ) → n < too_large → positive n ≡ finite (pos n)
unfolding positive
positive_fits n h = ground (arith, h)

rounded_pos : (n : ℕ) → rounded (pos n) ≡ positive (round n 1)
unfolding rounded
rounded_pos n = grind arith

rounded_exact : (k e : ℕ) → k < 2 ^ 53 → e ≤ 2000 → rounded (pos (k * 2 ^ e)) ≡ steps_of e k
rounded_exact k e h g =
    rounded_pos (k * 2 ^ e)
    ∙ ap positive (round_exact k e h)
    ∙ positive_fits (k * 2 ^ e) (fits k e h g)

-- Sums and differences of whole numbers of steps are exact below 2 ^ 53 steps.
pub add_exact :
    (e m n : ℕ) → e ≤ 2000 → m + n < 2 ^ 53 → steps_of e m +f steps_of e n ≡ steps_of e (m + n)
unfolding ◌+f◌ ◌+ℤ◌
add_exact e m n g h = ap rounded (joined m n (2 ^ e)) ∙ rounded_exact (m + n) e h g
  where
    joined : (m n a : ℕ) → pos (m * a) +ℤ pos (n * a) ≡ pos ((m + n) * a)
    joined m n a = grind arith

pub sub_exact :
    (e m n : ℕ) → e ≤ 2000 → m + n < 2 ^ 53 → steps_of e (m + n) -f steps_of e m ≡ steps_of e n
unfolding ◌-f◌ ◌+f◌ neg_f ◌+ℤ◌ ◌-ℤ◌
sub_exact e m n g h = ap rounded (parted m n (2 ^ e)) ∙ rounded_exact n e (omega arith) g
  where
    parted : (m n a : ℕ) → pos ((m + n) * a) +ℤ (pos 0 -ℤ pos (m * a)) ≡ pos (n * a)
    parted m n a = grind arith

pub max_steps : (e n : ℕ) → max_f (steps_of e n) zero_f ≡ steps_of e n
max_steps e n = ground arith
