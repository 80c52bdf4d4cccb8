-- ===== src/Health/Days.antt =====
-- The days of crates/proxy/src/token_health.rs, a quotient of doubles, against an exact quotient.
use better_ccflare_rs.Base.Int.{ℤ, pos, negsuc, sub_ℕ}
use native.Mathlib.Nat.{le-div_iff_mul-le}
use better_ccflare_rs.Base.{
  sym, min, ℕ, zero, suc, ◌+◌, ◌-◌, ◌*◌, ◌/◌, ◌≤◌, ◌<◌, ◌≡◌, refl, ap, subst, ◌∙◌, arith, ◌^◌,
}
use better_ccflare_rs.Base.Float.{F64, finite, scale}
use better_ccflare_rs.Base.Exact.{positive_fits, round_exact, pow_pos, fits, pow_add}
use better_ccflare_rs.Base.Double.{
  ceil_f, to_i64, ◌/f◌, positive, too_large, negative, from_int, round,
}
use better_ccflare_rs.Base.Rounding.{div_lt, round_mono, round_whole}
use better_ccflare_rs.Base.Ceiling.{
  ceil_neg, over_neg, minus_suc, scale_pos, from_pos, from_neg, scaled_le,
}
use better_ccflare_rs.Health.{ceil_days, day_f}
use better_ccflare_rs.Base.Ceiling.{over_pos, ceil_pos}
use better_ccflare_rs.Health.Ladder.{day_exact, day_pos}

-- The divisor, 86,400,000 in steps.
abbrev divisor : ℕ
divisor = 86_400_000 * scale

quotient : ℕ → ℕ
quotient n = round (n * scale * scale) divisor

scale_lem : scale ≡ 2 ^ 27 * 2 ^ 1047
unfolding scale
scale_lem = pow_add 27 1047

-- Whole numbers of days bound the quotient.
at_most : (n c : ℕ) → c < 2 ^ 53 → n ≤ c * 86_400_000 → quotient n ≤ c * scale
unfolding quotient scale
at_most n c h l =
    subst (λ q. quotient n ≤ q) (round_whole c 1074 divisor day_pos h)
      (round_mono (n * scale * scale) (c * 2 ^ 1074 * divisor) divisor day_pos
        (scaled n c 86_400_000 (2 ^ 1074) l))
  where
    scaled : (n c d s : ℕ) → n ≤ c * d → n * s * s ≤ c * s * (d * s)
    scaled n c d s l =
        let once = scaled_le (n) (c * d) (s * s) l in
        let a : n * s * s ≡ n * (s * s) = grind arith in
        let b : c * s * (d * s) ≡ c * d * (s * s) = grind arith in omega arith

at_least : (n c : ℕ) → c < 2 ^ 53 → c * 86_400_000 ≤ n → c * scale ≤ quotient n
unfolding quotient scale
at_least n c h l =
    subst (λ q. q ≤ quotient n) (round_whole c 1074 divisor day_pos h)
      (round_mono (c * 2 ^ 1074 * divisor) (n * scale * scale) divisor day_pos
        (scaled n c 86_400_000 (2 ^ 1074) l))
  where
    scaled : (n c d s : ℕ) → c * d ≤ n → c * s * (d * s) ≤ n * s * s
    scaled n c d s l =
        let once = scaled_le (c * d) (n) (s * s) l in
        let a : n * s * s ≡ n * (s * s) = grind arith in
        let b : c * s * (d * s) ≡ c * d * (s * s) = grind arith in omega arith

-- So do numbers of days with 27 binary places.
at_most-fine : (n k : ℕ) → k < 2 ^ 53 → n * 2 ^ 27 ≤ k * 86_400_000 → quotient n ≤ k * 2 ^ 1047
unfolding quotient
at_most-fine n k h l =
    subst (λ q. quotient n ≤ q) (round_whole k 1047 divisor day_pos h)
      (round_mono (n * scale * scale) (k * 2 ^ 1047 * divisor) divisor day_pos
        (scaled n k 86_400_000 (2 ^ 27) (2 ^ 1047) scale scale_lem l))
  where
    scaled : (n k d a b s : ℕ) → s ≡ a * b → n * a ≤ k * d → n * s * s ≤ k * b * (d * s)
    scaled n k d a b s e l =
        let once = scaled_le (n * a) (k * d) (b * s) l in
        let x : n * s * s ≡ n * a * (b * s) =
          ap (λ t. n * t * s) e ∙ (let y : n * (a * b) * s ≡ n * a * (b * s) = grind arith in y) in
        let z : k * b * (d * s) ≡ k * d * (b * s) = grind arith in omega arith

at_least-fine : (n k : ℕ) → k < 2 ^ 53 → k * 86_400_000 ≤ n * 2 ^ 27 → k * 2 ^ 1047 ≤ quotient n
unfolding quotient
at_least-fine n k h l =
    subst (λ q. q ≤ quotient n) (round_whole k 1047 divisor day_pos h)
      (round_mono (k * 2 ^ 1047 * divisor) (n * scale * scale) divisor day_pos
        (scaled n k 86_400_000 (2 ^ 27) (2 ^ 1047) scale scale_lem l))
  where
    scaled : (n k d a b s : ℕ) → s ≡ a * b → k * d ≤ n * a → k * b * (d * s) ≤ n * s * s
    scaled n k d a b s e l =
        let once = scaled_le (k * d) (n * a) (b * s) l in
        let x : n * s * s ≡ n * a * (b * s) =
          ap (λ t. n * t * s) e ∙ (let y : n * (a * b) * s ≡ n * a * (b * s) = grind arith in y) in
        let z : k * b * (d * s) ≡ k * d * (b * s) = grind arith in omega arith

small : (n : ℕ) → n < 2 ^ 26 * 86_400_000 → n < 2 ^ 53
small n h = omega arith

from_pos-exact : (n : ℕ) → n < 2 ^ 53 → from_int (pos n) ≡ finite (pos (n * scale))
unfolding scale
from_pos-exact n h =
    from_pos n
    ∙ ap positive (round_exact n 1074 h)
    ∙ positive_fits (n * 2 ^ 1074) (fits n 1074 h (omega arith))

negative_fits : (m : ℕ) → m < too_large → negative m ≡ finite (sub_ℕ 0 m)
unfolding negative
negative_fits m h = ground (arith, h)

from_neg-exact : (n : ℕ) → suc n < 2 ^ 53 → from_int (negsuc n) ≡ finite (sub_ℕ 0 (suc n * scale))
unfolding scale
from_neg-exact n h =
    from_neg n
    ∙ ap negative (round_exact (suc n) 1074 h)
    ∙ negative_fits (suc n * 2 ^ 1074) (fits (suc n) 1074 h (omega arith))

quotient_fits : (n : ℕ) → n < 2 ^ 26 * 86_400_000 → quotient n < too_large
unfolding scale
quotient_fits n h =
    let high = at_most n (2 ^ 26) (omega arith) (omega arith) in
    let room = fits (2 ^ 26) 1074 (omega arith) (omega arith) in omega (arith, high, room)

-- The double rounded up is the exact quotient rounded up.
up_unique :
    (r c s : ℕ) → 0 < s → r ≤ c * s → ((b : ℕ) → c ≡ suc b → b * s < r) → (r + (s - 1)) / s ≡ c
up_unique r zero s p h k =
    let low = div_lt (r + (s - 1)) 1 s p (omega (arith, h)) in omega (arith, low)
up_unique r (suc b) s p h k =
    let high =
      div_lt (r + (s - 1)) (suc (suc b)) s p
        (over s (b * s) r (suc b * s) (suc (suc b) * s) (unrolled b s) (unrolled (suc b) s) h p) in
    let low = (le-div_iff_mul-le p).1 (under s (b * s) r (suc b * s) (unrolled b s) (k b refl) p) in
    omega (arith, high, low)
  where
    unrolled : (b s : ℕ) → suc b * s ≡ b * s + s
    unrolled b s = grind arith

    over : (s t r u v : ℕ) → u ≡ t + s → v ≡ u + s → r ≤ u → 0 < s → r + (s - 1) < v
    over s t r u v e f h p = omega arith

    under : (s t r u : ℕ) → u ≡ t + s → t < r → 0 < s → u ≤ r + (s - 1)
    under s t r u e h p = omega arith

abbrev pub up : ℕ → ℕ
up n = (n + 86_399_999) / 86_400_000

quotient-up : (n : ℕ) → n < 2 ^ 26 * 86_400_000 → (quotient n + (scale - 1)) / scale ≡ up n
quotient-up n h =
    up_unique (quotient n) (up n) scale scale_pos (at_most n (up n) (omega arith) (omega arith))
      (λ b e. strictly b e (at_least-fine n (b * 2 ^ 27 + 1) (fine b e) (omega arith)))
  where
    fine : (b : ℕ) → (n + 86_399_999) / 86_400_000 ≡ suc b → b * 2 ^ 27 + 1 < 2 ^ 53
    fine b e = omega arith

    above : (b a c s r : ℕ) → s ≡ a * c → 0 < c → (b * a + 1) * c ≤ r → b * s < r
    above b a c s r e p l =
        let x : b * s ≡ b * a * c =
          ap (λ t. b * t) e ∙ (let y : b * (a * c) ≡ b * a * c = grind arith in y) in
        let z : (b * a + 1) * c ≡ b * a * c + c = grind arith in omega arith

    strictly :
        (b : ℕ)
        → (n + 86_399_999) / 86_400_000 ≡ suc b
        → (b * 2 ^ 27 + 1) * 2 ^ 1047 ≤ quotient n
        → b * scale < quotient n
    strictly b e l = above b (2 ^ 27) (2 ^ 1047) scale (quotient n) scale_lem (pow_pos 1047) l

abbrev pub down : ℕ → ℕ
down n = n / 86_400_000

within : (r c s : ℕ) → 0 < s → c * s ≤ r → r < suc c * s → r / s ≡ c
within r c s p h k =
    let high = div_lt r (suc c) s p k in
    let low = (le-div_iff_mul-le p).1 h in omega (arith, high, low)

quotient-down : (n : ℕ) → n < 2 ^ 26 * 86_400_000 → quotient n / scale ≡ down n
quotient-down n h =
    within (quotient n) (down n) scale scale_pos (at_least n (down n) (omega arith) (omega arith)) (
      beneath (down n) (2 ^ 27) (2 ^ 1047) scale (quotient n) (omega arith) scale_lem (pow_pos 1047)
        (at_most-fine n (down n * 2 ^ 27 + (2 ^ 27 - 1)) (omega arith) (omega arith)))
  where
    beneath :
        (c a b s r : ℕ) → 0 < a → s ≡ a * b → 0 < b → r ≤ (c * a + (a - 1)) * b → r < suc c * s
    beneath c zero b s r h e p l = absurd (omega arith)
    beneath c (suc a) b s r h e p l =
        let x : suc c * s ≡ suc c * (suc a * b) = ap (λ t. suc c * t) e in
        let y : suc c * (suc a * b) ≡ (c * suc a + a) * b + b = grind arith in
        let z : (c * suc a + (suc a - 1)) * b ≡ (c * suc a + a) * b = grind arith in omega arith

rounded_up : F64 → ℤ
rounded_up x = to_i64 (ceil_f x)

pub days_pos : (n : ℕ) → n < 2 ^ 26 * 86_400_000 → ceil_days (pos n) ≡ pos (up n)
unfolding ceil_days quotient rounded_up
days_pos n h =
    ap (λ x. rounded_up (x /f day_f)) (from_pos-exact n (small n h))
    ∙ ap (λ d. rounded_up (finite (pos (n * scale)) /f d)) day_exact
    ∙ ap rounded_up (over_pos divisor day_pos (n * scale))
    ∙ ap rounded_up (positive_fits (quotient n) (quotient_fits n h))
    ∙ ceil_pos (quotient n)
    ∙ ap (λ m. pos (min (2 ^ 63 - 1) m)) (quotient-up n h)
    ∙ ap pos (in_range n h)
  where
    in_range :
        (n : ℕ)
        → n < 2 ^ 26 * 86_400_000
        → min (2 ^ 63 - 1) ((n + 86_399_999) / 86_400_000) ≡ (n + 86_399_999) / 86_400_000
    in_range n h = ground (arith, h)

quotient-suc : (n : ℕ) → n < 2 ^ 26 * 86_400_000 → 0 < n → (r : ℕ) × (quotient n ≡ suc r)
quotient-suc n h p =
    is_suc (quotient n) (omega (arith, pow_pos 1047, at_least-fine n 1 (omega arith) (omega arith)))
  where
    is_suc : (m : ℕ) → 0 < m → (r : ℕ) × (m ≡ suc r)
    is_suc zero p = absurd (omega arith)
    is_suc (suc r) p = (r, refl)

negative_up :
    (q r : ℕ) → q ≡ suc r → rounded_up (finite (sub_ℕ 0 q)) ≡ sub_ℕ 0 (min (2 ^ 63) (q / scale))
unfolding rounded_up
negative_up q r e =
    ap (λ m. to_i64 (ceil_f (finite (sub_ℕ 0 m)))) e
    ∙ ap (λ k. to_i64 (ceil_f (finite k))) (minus_suc r)
    ∙ ceil_neg r
    ∙ ap (λ m. sub_ℕ 0 (min (2 ^ 63) (m / scale))) (sym e)

scaled-suc : (n : ℕ) → (r : ℕ) × (suc n * scale ≡ suc r)
scaled-suc n = is_suc (suc n * scale) (grind (arith, scale_pos))
  where
    is_suc : (m : ℕ) → 0 < m → (r : ℕ) × (m ≡ suc r)
    is_suc zero p = absurd (omega arith)
    is_suc (suc r) p = (r, refl)

over_negative :
    (m r : ℕ)
    → m ≡ suc r
    → finite (sub_ℕ 0 m) /f finite (pos divisor) ≡ negative (round (m * scale) divisor)
over_negative m r e =
    ap (λ k. finite (sub_ℕ 0 k) /f finite (pos divisor)) e
    ∙ ap (λ k. finite k /f finite (pos divisor)) (minus_suc r)
    ∙ over_neg divisor day_pos r
    ∙ ap (λ k. negative (round (k * scale) divisor)) (sym e)

pub days_neg : (n : ℕ) → suc n < 2 ^ 26 * 86_400_000 → ceil_days (negsuc n) ≡ sub_ℕ 0 (down (suc n))
unfolding ceil_days quotient rounded_up
days_neg n h =
    let (r, e) = scaled-suc n in
    let (q, f) = quotient-suc (suc n) h (omega arith) in
    ap (λ x. rounded_up (x /f day_f)) (from_neg-exact n (small (suc n) h))
    ∙ ap (λ d. rounded_up (finite (sub_ℕ 0 (suc n * scale)) /f d)) day_exact
    ∙ ap rounded_up (over_negative (suc n * scale) r e)
    ∙ ap rounded_up (negative_fits (quotient (suc n)) (quotient_fits (suc n) h))
    ∙ negative_up (quotient (suc n)) q f
    ∙ ap (λ m. sub_ℕ 0 (min (2 ^ 63) m)) (quotient-down (suc n) h)
    ∙ ap (sub_ℕ 0) (in_range (suc n) h)
  where
    in_range : (n : ℕ) → n < 2 ^ 26 * 86_400_000 → min (2 ^ 63) (down n) ≡ down n
    in_range n h = ground (arith, h)
