-- ===== src/Base/Rounding.antt =====
-- The rounding of doubles keeps the order.
use better_ccflare_rs.Base.{
  ℕ, zero, suc, ◌+◌, ◌-◌, ◌*◌, ◌/◌, ◌≤◌, ◌<◌, ◌≡◌, refl, sym, ap, subst, ◌∙◌, ◌⊎◌, inl, inr, true,
  false, List, [], ◌∷◌, arith, leb, Bool-cases, ◌^◌,
}
use better_ccflare_rs.Base.{leb→le, ◌/◌, ◌%◌}
use native.Mathlib.Nat.{
  mod-add-div', pow-suc, pow-le-pow_right, mul-mod_left, le-div_iff_mul-le, mul-div_cancel,
}
use better_ccflare_rs.Base.Exact.{
  pow_add, pow_pos, excess-long, excess-short, excess_low, Leaves, not_longer, regroup,
}
use better_ccflare_rs.Base.Double.{excess, bit_steps, round_at, round}

pub div_lt : (n c p : ℕ) → 0 < p → n < c * p → n / p < c
div_lt n c p h l = elim (Bool-cases (leb c (n / p))) [
  | inl e ↦
      let low : c * p ≤ n = (le-div_iff_mul-le h).0 (leb→le c (n / p) e) in absurd (omega arith)
  | inr e ↦ ground (arith, e)
]

pub lt_of_div : (n c p : ℕ) → 0 < p → n / p < c → n < c * p
lt_of_div n c p h l = elim (Bool-cases (leb (c * p) n)) [
  | inl e ↦
      let high : c ≤ n / p = (le-div_iff_mul-le h).1 (leb→le (c * p) n e) in absurd (omega arith)
  | inr e ↦ below (c * p) n e
]
  where
    below : (a n : ℕ) → leb a n ≡ false → n < a
    below a n e = ground (arith, e)

pub div_mono : (a b p : ℕ) → 0 < p → a ≤ b → a / p ≤ b / p
div_mono a b p h l =
    let low : a / p * p ≤ a = (le-div_iff_mul-le h).0 (same (a / p)) in
    (le-div_iff_mul-le h).1 (omega (arith, low))
  where
    same : (n : ℕ) → n ≤ n
    same n = omega arith

steps_below : ℕ → List ℕ
steps_below zero = []
steps_below (suc k) = 2 ^ k ∷ steps_below k

short_lt : (n s : ℕ) → leb (2 ^ 52) (n / 2 ^ s) ≡ false → n < 2 ^ 52 * 2 ^ s
short_lt n s e = lt_of_div n (2 ^ 52) (2 ^ s) (pow_pos s) (ground (arith, e))

regrouped : (n c a b p : ℕ) → p ≡ a * b → n < c * b * a → n < c * p
regrouped n c a b p e h = rw e (let same : c * (a * b) ≡ c * b * a = grind arith in omega arith)

raised : (n s x : ℕ) → n / 2 ^ s < 2 ^ 53 * 2 ^ x → n < 2 ^ 53 * 2 ^ (s + x)
raised n s x h =
    regrouped n (2 ^ 53) (2 ^ s) (2 ^ x) (2 ^ (s + x)) (pow_add s x)
      (lt_of_div n (2 ^ 53 * 2 ^ x) (2 ^ s) (pow_pos s) h)

twice : (k : ℕ) → 2 ^ (2 ^ suc k) ≡ 2 ^ (2 ^ k) * 2 ^ (2 ^ k)
twice k = ap (λ e. 2 ^ e) (pow-suc 2 k ∙ doubled (2 ^ k)) ∙ pow_add (2 ^ k) (2 ^ k)
  where
    doubled : (a : ℕ) → a * 2 ≡ a + a
    doubled a = omega arith

halved : (n k : ℕ) → n < 2 ^ 52 * 2 ^ (2 ^ suc k) → n < 2 ^ 52 * 2 ^ (2 ^ k) * 2 ^ (2 ^ k)
halved n k h = split n (2 ^ 52) (2 ^ (2 ^ k)) (2 ^ (2 ^ suc k)) (twice k) h
  where
    split : (n c a p : ℕ) → p ≡ a * a → n < c * p → n < c * a * a
    split n c a p e h = let same : c * p ≡ c * a * a = grind arith in omega arith

-- What the search leaves is shorter than 54 bits, if the number is within its reach.
excess_high : (k n : ℕ) → n < 2 ^ 52 * 2 ^ (2 ^ k) → n < 2 ^ 53 * 2 ^ excess (steps_below k) n
unfolding steps_below excess
excess_high zero n h = omega arith
excess_high (suc k) n h = elim (Bool-cases (leb (2 ^ 52) (n / 2 ^ (2 ^ k)))) [
  | inr e ↦
      subst (λ x. n < 2 ^ 53 * 2 ^ x) (sym (excess-short (2 ^ k) (steps_below k) n e))
        (excess_high k n (short_lt n (2 ^ k) e))
  | inl e ↦
      subst (λ x. n < 2 ^ 53 * 2 ^ x) (sym (excess-long (2 ^ k) (steps_below k) n e))
        (raised n (2 ^ k) _ (
          excess_high k (n / 2 ^ (2 ^ k))
            (div_lt n (2 ^ 52 * 2 ^ (2 ^ k)) (2 ^ (2 ^ k)) (pow_pos (2 ^ k)) (halved n k h))))
]

-- The search on steps below 2 ^ k finds less than 2 ^ k.
excess_bound : (k n : ℕ) → excess (steps_below k) n < 2 ^ k
unfolding steps_below excess
excess_bound zero n = omega arith
excess_bound (suc k) n = elim (Bool-cases (leb (2 ^ 52) (n / 2 ^ (2 ^ k)))) [
  | inr e ↦
      subst (λ x. x < 2 ^ suc k) (sym (excess-short (2 ^ k) (steps_below k) n e))
        (wider (2 ^ k) (excess (steps_below k) n) (2 ^ suc k) (pow-suc 2 k) (excess_bound k n))
  | inl e ↦
      subst (λ x. x < 2 ^ suc k) (sym (excess-long (2 ^ k) (steps_below k) n e))
        (wider_sum (2 ^ k) (excess (steps_below k) (n / 2 ^ (2 ^ k))) (2 ^ suc k) (pow-suc 2 k)
          (excess_bound k (n / 2 ^ (2 ^ k))))
]
  where
    wider : (a x b : ℕ) → b ≡ a * 2 → x < a → x < b
    wider a x b e h = omega arith

    wider_sum : (a x b : ℕ) → b ≡ a * 2 → x < a → a + x < b
    wider_sum a x b e h = omega arith

-- A greater number is shifted as far, or further and the smaller one is below 2 ^ 53 steps.
abbrev Grows : ℕ → ℕ → ℕ → Type 0
Grows n x y = (x ≡ y) ⊎ ((x < y) × (n < 2 ^ 53 * 2 ^ x))

excess-Grows : (k m n : ℕ) → m ≤ n → Grows m (excess (steps_below k) m) (excess (steps_below k) n)
unfolding steps_below excess
excess-Grows zero m n h = inl refl
excess-Grows (suc k) m n h = elim (Bool-cases (leb (2 ^ 52) (m / 2 ^ (2 ^ k)))) [
  | inl e ↦ elim (Bool-cases (leb (2 ^ 52) (n / 2 ^ (2 ^ k)))) [
    | inl f ↦
        subst (λ x. Grows m x (excess (2 ^ k ∷ steps_below k) n))
          (sym (excess-long (2 ^ k) (steps_below k) m e))
          (subst (λ y. Grows m (2 ^ k + excess (steps_below k) (m / 2 ^ (2 ^ k))) y)
            (sym (excess-long (2 ^ k) (steps_below k) n f))
            (shift (2 ^ k) m _ _ (
              excess-Grows k (m / 2 ^ (2 ^ k)) (n / 2 ^ (2 ^ k))
                (div_mono m n (2 ^ (2 ^ k)) (pow_pos (2 ^ k)) h))))
    | inr f ↦ absurd (
        against (m / 2 ^ (2 ^ k)) (n / 2 ^ (2 ^ k)) (2 ^ 52) e f
          (div_mono m n (2 ^ (2 ^ k)) (pow_pos (2 ^ k)) h))
  ]
  | inr e ↦
      subst (λ x. Grows m x (excess (2 ^ k ∷ steps_below k) n))
        (sym (excess-short (2 ^ k) (steps_below k) m e))
        (elim (Bool-cases (leb (2 ^ 52) (n / 2 ^ (2 ^ k)))) [
          | inr f ↦
              subst (λ y. Grows m (excess (steps_below k) m) y)
                (sym (excess-short (2 ^ k) (steps_below k) n f)) (excess-Grows k m n h)
          | inl f ↦
              subst (λ y. Grows m (excess (steps_below k) m) y)
                (sym (excess-long (2 ^ k) (steps_below k) n f))
                (inr (
                  further (2 ^ k) (excess (steps_below k) m) _ (excess_bound k m),
                  excess_high k m (short_lt m (2 ^ k) e),
                ))
        ])
]
  where
    further : (a x y : ℕ) → x < a → x < a + y
    further a x y h = omega arith

    against : (a b c : ℕ) → leb c a ≡ true → leb c b ≡ false → a ≤ b → ⊥
    against a b c e f h = ground (arith, e, f)

    shift : (s m x y : ℕ) → Grows (m / 2 ^ s) x y → Grows m (s + x) (s + y)
    shift s m x y (inl e) = inl (ap (λ z. s + z) e)
    shift s m x y (inr (l, b)) = inr (omega arith, raised m s x b)

round_at_low : (m r d : ℕ) → m ≤ round_at m r d
round_at_low m r d = ground arith

round_at_high : (m r d : ℕ) → round_at m r d ≤ m + 1
round_at_high m r d = ground arith

round_at_mono : (m r s d : ℕ) → r ≤ s → round_at m r d ≤ round_at m s d
round_at_mono m r s d h = ground arith

-- The quotient by `d` in whole steps of `p`, rounded.
at_step : ℕ → ℕ → ℕ → ℕ
at_step n d p = p * round_at (n / (d * p)) (n % (d * p)) (d * p)

quotient_mono :
    (m n d : ℕ) → 0 < d → m ≤ n → round_at (m / d) (m % d) d ≤ round_at (n / d) (n % d) d
quotient_mono m n d h l = elim (Bool-cases (leb (n / d) (m / d))) [
  | inl e ↦
      let same : m / d ≡ n / d = omega (arith, div_mono m n d h l, leb→le _ _ e) in
      subst (λ q. round_at q (m % d) d ≤ round_at (n / d) (n % d) d) (sym same)
        (round_at_mono (n / d) (m % d) (n % d) d (
          rest_le (m % d) (n % d) (m / d * d) (n / d * d) m n (ap (λ q. q * d) same)
            (mod-add-div' m d) (mod-add-div' n d) l))
  | inr e ↦
      between (m / d) (n / d) _ _ e (round_at_high (m / d) (m % d) d)
        (round_at_low (n / d) (n % d) d)
]
  where
    rest_le : (r s a b m n : ℕ) → a ≡ b → r + a ≡ m → s + b ≡ n → m ≤ n → r ≤ s
    rest_le r s a b m n e f g h = omega arith

    between : (a b x y : ℕ) → leb b a ≡ false → x ≤ a + 1 → b ≤ y → x ≤ y
    between a b x y e h k = ground (arith, e, h, k)

times_le : (a b c : ℕ) → b ≤ c → a * b ≤ a * c
times_le a b c h = grind arith

times_pos : (a b : ℕ) → 0 < a → 0 < b → 0 < a * b
times_pos a b h k = grind arith

at_step_mono : (m n d p : ℕ) → 0 < d → 0 < p → m ≤ n → at_step m d p ≤ at_step n d p
unfolding at_step
at_step_mono m n d p h k l = times_le p _ _ (quotient_mono m n (d * p) (times_pos d p h k) l)

at_step_high : (n d p : ℕ) → 0 < d → 0 < p → n / d < 2 ^ 53 * p → at_step n d p ≤ p * 2 ^ 53
unfolding at_step
at_step_high n d p h k l =
    let short =
      div_lt n (2 ^ 53) (d * p) (times_pos d p h k)
        (regroup_lt n (2 ^ 53) d p (lt_of_div n (2 ^ 53 * p) d h l)) in
    times_le p _ (2 ^ 53) (omega (arith, short, round_at_high (n / (d * p)) (n % (d * p)) (d * p)))
  where
    regroup_lt : (n c d p : ℕ) → n < c * p * d → n < c * (d * p)
    regroup_lt n c d p h = let same : c * p * d ≡ c * (d * p) = grind arith in omega arith

at_step_low : (n d p : ℕ) → 0 < d → 0 < p → 2 ^ 52 * p ≤ n / d → p * 2 ^ 52 ≤ at_step n d p
unfolding at_step
at_step_low n d p h k l =
    let long =
      (le-div_iff_mul-le (times_pos d p h k)).1
        (regroup_le n (2 ^ 52) d p ((le-div_iff_mul-le h).0 l)) in
    times_le p (2 ^ 52) _ (omega (arith, long, round_at_low (n / (d * p)) (n % (d * p)) (d * p)))
  where
    regroup_le : (n c d p : ℕ) → c * p * d ≤ n → c * (d * p) ≤ n
    regroup_le n c d p h = let same : c * p * d ≡ c * (d * p) = grind arith in omega arith

all_steps : bit_steps ≡ steps_below 11
unfolding steps_below
all_steps = refl

round_lem : (n d : ℕ) → round n d ≡ at_step n d (2 ^ excess bit_steps (n / d))
unfolding round at_step
round_lem n d = refl

further_step : (x y : ℕ) → x < y → 2 ^ x * 2 ^ 53 ≤ 2 ^ y * 2 ^ 52
further_step x y h =
    let more : 2 ^ suc x ≤ 2 ^ y = pow-le-pow_right (omega arith) h in
    joined (2 ^ x) (2 ^ suc x) (2 ^ y) (pow-suc 2 x) more
  where
    joined : (a b c : ℕ) → b ≡ a * 2 → b ≤ c → a * 2 ^ 53 ≤ c * 2 ^ 52
    joined a b c e h = omega arith

-- Rounding keeps the order of the quotients by one divisor.
pub round_mono : (m n d : ℕ) → 0 < d → m ≤ n → round m d ≤ round n d
round_mono m n d h l =
    let x = excess bit_steps (m / d) in
    let y = excess bit_steps (n / d) in
    rw (round_lem m d, round_lem n d)
      (elim (subst (λ steps. Grows (m / d) (excess steps (m / d)) (excess steps (n / d)))
        (sym all_steps) (excess-Grows 11 (m / d) (n / d) (div_mono m n d h l))) [
          | inl e ↦
              subst (λ z. at_step m d (2 ^ x) ≤ at_step n d (2 ^ z)) e
                (at_step_mono m n d (2 ^ x) h (pow_pos x) l)
          | inr (less, short) ↦
              chain _ _ _ _ (at_step_high m d (2 ^ x) h (pow_pos x) short) (further_step x y less) (
                at_step_low n d (2 ^ y) h (pow_pos y)
                  (long_enough (n / d) x y less (excess_low bit_steps (n / d))))
        ])
  where
    chain : (a b c e : ℕ) → a ≤ b → b ≤ c → c ≤ e → a ≤ e
    chain a b c e f g h = omega arith

    long_enough : (n x y : ℕ) → x < y → Leaves n y → 2 ^ 52 * 2 ^ y ≤ n
    long_enough n x y h (inl z) = absurd (omega arith)
    long_enough n x y h (inr k) = k

no_rest : (q d : ℕ) → 0 < d → round_at q 0 d ≡ q
no_rest q zero p = absurd (omega arith)
no_rest q (suc d) p = grind arith

at_step-whole : (q d p : ℕ) → 0 < d → 0 < p → at_step (q * (d * p)) d p ≡ p * q
unfolding at_step
at_step-whole q d p h k =
    let pos_dp = times_pos d p h k in
    rw (mul-div_cancel q pos_dp, mul-mod_left q (d * p))
      (ap (λ x. p * x) (no_rest q (d * p) pos_dp))

-- A quotient that is a whole number of steps of 2 ^ e, below 2 ^ 53 of them, is left as it is.
pub round_whole : (k e d : ℕ) → 0 < d → k < 2 ^ 53 → round (k * 2 ^ e * d) d ≡ k * 2 ^ e
round_whole k e d p h =
    let n : ℕ = k * 2 ^ e in
    let x : ℕ = excess bit_steps (n * d / d) in
    let low : Leaves n x =
      subst (λ m. Leaves m x) (mul-div_cancel n p) (excess_low bit_steps (n * d / d)) in
    let parts : n ≡ k * 2 ^ (e - x) * 2 ^ x = regroup k e x (not_longer k e x h low) in
    round_lem (n * d) d
    ∙ ap (λ m. at_step m d (2 ^ x)) (moved n (k * 2 ^ (e - x)) (2 ^ x) d parts)
    ∙ at_step-whole (k * 2 ^ (e - x)) d (2 ^ x) p (pow_pos x)
    ∙ swapped (2 ^ x) (k * 2 ^ (e - x)) n parts
  where
    moved : (n q a d : ℕ) → n ≡ q * a → n * d ≡ q * (d * a)
    moved n q a d e = rw e (grind arith)

    swapped : (a q n : ℕ) → n ≡ q * a → a * q ≡ n
    swapped a q n e = rw e (grind arith)
