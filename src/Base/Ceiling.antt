-- ===== src/Base/Ceiling.antt =====
-- Quotients of doubles by a positive number, and their ceilings as integers, keep the order.
use better_ccflare_rs.Base.{
  ℕ, zero, suc, ◌+◌, ◌-◌, ◌*◌, ◌/◌, ◌≤◌, ◌<◌, min, ◌≡◌, refl, ap, ◌∙◌, true, arith, ◌^◌,
}
use better_ccflare_rs.Base.{◌/◌}
use native.Mathlib.Nat.{mul-div_cancel}
use better_ccflare_rs.Base.Int.{ℤ, pos, negsuc, sub_ℕ, ◌≤ℤ◌}
use better_ccflare_rs.Base.Float.{F64, nan, infinity, neg_infinity, finite, scale}
use better_ccflare_rs.Base.Exact.{pow_pos}
use better_ccflare_rs.Base.Rounding.{div_mono, round_mono, round_whole}
use better_ccflare_rs.Base.Double.{
  round, positive, negative, too_large, from_int, ◌/f◌, ceil_f, to_i64, leb_f,
}

pub scale_pos : 0 < scale
unfolding scale
scale_pos = pow_pos 1074

positive_mono : (m n : ℕ) → m ≤ n → leb_f (positive m) (positive n) ≡ true
unfolding positive
positive_mono m n h = ground (arith, h)

negative_mono : (m n : ℕ) → m ≤ n → leb_f (negative n) (negative m) ≡ true
unfolding negative
negative_mono m n h = ground (arith, h)

across : (m n : ℕ) → leb_f (negative m) (positive n) ≡ true
unfolding negative positive
across m n = ground arith

positive_zero : positive 0 ≡ finite (pos 0)
unfolding positive too_large
positive_zero = refl

-- A number of one sign, rounded.
pub from_pos : (n : ℕ) → from_int (pos n) ≡ positive (round (n * scale) 1)
unfolding from_int
from_pos n = refl

pub from_neg : (n : ℕ) → from_int (negsuc n) ≡ negative (round (suc n * scale) 1)
unfolding from_int
from_neg n = refl

pub scaled_le : (m n a : ℕ) → m ≤ n → m * a ≤ n * a
scaled_le m n a h = grind arith

one_pos : 0 < 1
one_pos = omega arith

pub from_int_mono : (a b : ℤ) → a ≤ℤ b → leb_f (from_int a) (from_int b) ≡ true
from_int_mono (pos m) (pos n) h =
    rw (from_pos m, from_pos n)
      (positive_mono _ _
        (round_mono (m * scale) (n * scale) 1 one_pos (scaled_le m n scale (omega arith))))
from_int_mono (pos m) (negsuc n) h = absurd (omega arith)
from_int_mono (negsuc m) (pos n) h = rw (from_neg m, from_pos n) (across _ _)
from_int_mono (negsuc m) (negsuc n) h =
    rw (from_neg m, from_neg n)
      (negative_mono _ _ (
        round_mono (suc n * scale) (suc m * scale) 1 one_pos
          (scaled_le (suc n) (suc m) scale (omega arith))))

module _ (d : ℕ) (d_pos : 0 < d) where
  nothing : round (0 * scale) d ≡ 0
  nothing = ap (λ m. round m d) zeros ∙ round_whole 0 0 d d_pos (omega arith)
    where
      zeros : 0 * scale ≡ 0 * 2 ^ 0 * d
      zeros = grind arith

  by_zero : (r : ℕ) → r ≡ 0 → finite (pos 0) /f finite (pos d) ≡ positive r
  unfolding ◌/f◌
  by_zero r e = rw e (ground (arith, d_pos, positive_zero))

  pub over_pos : (n : ℕ) → finite (pos n) /f finite (pos d) ≡ positive (round (n * scale) d)
  unfolding ◌/f◌
  over_pos zero = by_zero (round (0 * scale) d) nothing
  over_pos (suc n) = ground (arith, d_pos)

  pub over_neg : (n : ℕ) → finite (negsuc n) /f finite (pos d) ≡ negative (round (suc n * scale) d)
  unfolding ◌/f◌
  over_neg n = ground (arith, d_pos)

  over_infinity : infinity /f finite (pos d) ≡ infinity
  unfolding ◌/f◌
  over_infinity = ground (arith, d_pos)

  over_neg_infinity : neg_infinity /f finite (pos d) ≡ neg_infinity
  unfolding ◌/f◌
  over_neg_infinity = ground (arith, d_pos)

  below_infinity : (m : ℕ) → leb_f (positive (round (m * scale) d)) infinity ≡ true
  unfolding positive
  below_infinity m = ground arith

  neg_below : (m : ℕ) → leb_f (negative (round (suc m * scale) d)) infinity ≡ true
  unfolding negative
  neg_below m = ground arith

  above_pos : (n : ℕ) → leb_f neg_infinity (positive (round (n * scale) d)) ≡ true
  unfolding positive
  above_pos n = ground arith

  above_neg : (n : ℕ) → leb_f neg_infinity (negative (round (suc n * scale) d)) ≡ true
  unfolding negative
  above_neg n = ground arith

  pub over_mono :
      (x y : F64) → leb_f x y ≡ true → leb_f (x /f finite (pos d)) (y /f finite (pos d)) ≡ true
  over_mono (finite (pos m)) (finite (pos n)) h =
      rw (over_pos m, over_pos n)
        (positive_mono _ _
          (round_mono (m * scale) (n * scale) d d_pos (scaled_le m n scale (ground (arith, h)))))
  over_mono (finite (negsuc m)) (finite (negsuc n)) h =
      rw (over_neg m, over_neg n)
        (negative_mono _ _ (
          round_mono (suc n * scale) (suc m * scale) d d_pos
            (scaled_le (suc n) (suc m) scale (ground (arith, h)))))
  over_mono (finite (negsuc m)) (finite (pos n)) h = rw (over_neg m, over_pos n) (across _ _)
  over_mono (finite (pos m)) (finite (negsuc n)) h = absurd (ground (arith, h))
  over_mono (finite (pos m)) infinity h = rw (over_pos m, over_infinity) (below_infinity m)
  over_mono (finite (negsuc m)) infinity h = rw (over_neg m, over_infinity) (neg_below m)
  over_mono neg_infinity (finite (pos n)) h = rw (over_pos n, over_neg_infinity) (above_pos n)
  over_mono neg_infinity (finite (negsuc n)) h = rw (over_neg n, over_neg_infinity) (above_neg n)
  over_mono neg_infinity neg_infinity h = rw over_neg_infinity refl
  over_mono neg_infinity infinity h = rw (over_neg_infinity, over_infinity) refl
  over_mono infinity infinity h = rw over_infinity refl
  over_mono nan y h = cc
  over_mono infinity nan h = cc
  over_mono infinity neg_infinity h = cc
  over_mono infinity (finite k) h = cc
  over_mono neg_infinity nan h = cc
  over_mono (finite k) nan h = cc
  over_mono (finite k) neg_infinity h = cc

-- The integer that the ceiling of a double is.
pub ceil_pos :
    (n : ℕ) → to_i64 (ceil_f (finite (pos n))) ≡ pos (min (2 ^ 63 - 1) ((n + (scale - 1)) / scale))
unfolding to_i64 ceil_f
ceil_pos n = rw (mul-div_cancel ((n + (scale - 1)) / scale) scale_pos) refl

zero_over : (d : ℕ) → 0 < d → 0 / d ≡ 0
zero_over d h = ap (λ m. m / d) none_of ∙ mul-div_cancel 0 h
  where
    none_of : 0 ≡ 0 * d
    none_of = omega arith

pub minus_suc : (m : ℕ) → sub_ℕ 0 (suc m) ≡ negsuc m
minus_suc m = ground arith

cut_off : (m : ℕ) → to_i64 (finite (sub_ℕ 0 m)) ≡ sub_ℕ 0 (min (2 ^ 63) (m / scale))
unfolding to_i64
cut_off zero = rw (zero_over scale scale_pos) refl
cut_off (suc m) = ap (λ k. to_i64 (finite k)) (minus_suc m)

pub ceil_neg :
    (n : ℕ) → to_i64 (ceil_f (finite (negsuc n))) ≡ sub_ℕ 0 (min (2 ^ 63) (suc n / scale))
unfolding ceil_f
ceil_neg n =
    cut_off (suc n / scale * scale)
    ∙ ap (λ m. sub_ℕ 0 (min (2 ^ 63) m)) (mul-div_cancel (suc n / scale) scale_pos)

ceil_most : to_i64 (ceil_f infinity) ≡ pos (2 ^ 63 - 1)
unfolding to_i64 ceil_f
ceil_most = refl

ceil_least : to_i64 (ceil_f neg_infinity) ≡ sub_ℕ 0 (2 ^ 63)
unfolding to_i64 ceil_f
ceil_least = refl

-- A greater double has no smaller ceiling.
pub ceil_mono : (x y : F64) → leb_f x y ≡ true → to_i64 (ceil_f x) ≤ℤ to_i64 (ceil_f y)
ceil_mono (finite (pos m)) (finite (pos n)) h =
    let le = div_mono (m + (scale - 1)) (n + (scale - 1)) scale scale_pos (ground (arith, h)) in
    rw (ceil_pos m, ceil_pos n) (omega (arith, le))
ceil_mono (finite (negsuc m)) (finite (negsuc n)) h =
    let le = div_mono (suc n) (suc m) scale scale_pos (ground (arith, h)) in
    rw (ceil_neg m, ceil_neg n) (ground (arith, le))
ceil_mono (finite (negsuc m)) (finite (pos n)) h = rw (ceil_neg m, ceil_pos n) (ground arith)
ceil_mono (finite (pos m)) (finite (negsuc n)) h = absurd (ground (arith, h))
ceil_mono (finite (pos m)) infinity h = rw (ceil_pos m, ceil_most) (ground arith)
ceil_mono (finite (negsuc m)) infinity h = rw (ceil_neg m, ceil_most) (ground arith)
ceil_mono neg_infinity (finite (pos n)) h = rw (ceil_pos n, ceil_least) (ground arith)
ceil_mono neg_infinity (finite (negsuc n)) h = rw (ceil_neg n, ceil_least) (ground arith)
ceil_mono neg_infinity neg_infinity h = omega arith
ceil_mono neg_infinity infinity h = rw (ceil_least, ceil_most) (ground arith)
ceil_mono infinity infinity h = omega arith
ceil_mono nan y h = cc
ceil_mono infinity nan h = cc
ceil_mono infinity neg_infinity h = cc
ceil_mono infinity (finite k) h = cc
ceil_mono neg_infinity nan h = cc
ceil_mono (finite k) nan h = cc
ceil_mono (finite k) neg_infinity h = cc
