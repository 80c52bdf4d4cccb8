-- ===== src/Base/Double.antt =====
-- Arithmetic of `f64`: each operation rounds its exact result to the nearest double, ties to even.
-- Negative zero is not told from zero, which shows only in a division by it.
use Prim.Native.Nat.{zero}
use better_ccflare_rs.Base.{
  ◌%◌, ℕ, suc, ◌+◌, ◌-◌, ◌*◌, ◌/◌, min, Bool, true, false, List, [], ◌∷◌, ltb, leb, ◌==◌,
  if◌then◌else◌, ◌^◌,
}
use better_ccflare_rs.Base.Int.{negsuc, ℤ, pos, pos_part, neg_part, sub_ℕ, ltb_ℤ, leb_ℤ, ◌+ℤ◌, ◌-ℤ◌}
use better_ccflare_rs.Base.Float.{F64, nan, infinity, neg_infinity, finite, scale}

-- By how many bits a number is longer than 53, searched in falling steps: exact below 2 ^ 2100, which
-- is past the largest double.
unfoldable pub excess : List ℕ → ℕ → ℕ
excess [] n = 0
excess (s ∷ steps) n = elim (leb (2 ^ 52) (n / 2 ^ s)) [
  | true ↦ s + excess steps (n / 2 ^ s)
  | false ↦ excess steps n
]

abbrev pub bit_steps : List ℕ
bit_steps = 1024 ∷ 512 ∷ 256 ∷ 128 ∷ 64 ∷ 32 ∷ 16 ∷ 8 ∷ 4 ∷ 2 ∷ 1 ∷ []

abbrev pub round_at : (m r d : ℕ) → ℕ
round_at m r d =
    if ltb d (2 * r) then m + 1 else if 2 * r == d then (if m % 2 == 1 then m + 1 else m) else m

-- The double nearest to n / d, in steps of 2 ^ -1074.
unfoldable pub round : ℕ → ℕ → ℕ
round n d =
    let step = 2 ^ excess bit_steps (n / d) in
    step * round_at (n / (d * step)) (n % (d * step)) (d * step)

unfoldable pub too_large : ℕ
too_large = 2 ^ 2098

unfoldable pub positive : ℕ → F64
positive n = if leb too_large n then infinity else finite (pos n)

unfoldable pub negative : ℕ → F64
negative n = if leb too_large n then neg_infinity else finite (sub_ℕ 0 n)

-- The double nearest to an exact value in steps of 2 ^ -1074.
unfoldable pub rounded : ℤ → F64
rounded k =
    if ltb_ℤ k (pos 0) then negative (round (neg_part k) 1) else positive (round (pos_part k) 1)

unfoldable pub neg_f : F64 → F64
neg_f nan = nan
neg_f infinity = neg_infinity
neg_f neg_infinity = infinity
neg_f (finite k) = finite (pos 0 -ℤ k)

infixl 65 ◌+f◌ ◌-f◌
infixl 70 ◌*f◌ ◌/f◌
unfoldable pub ◌+f◌ : F64 → F64 → F64
finite a +f finite b = rounded (a +ℤ b)
nan +f y = nan
infinity +f nan = nan
infinity +f neg_infinity = nan
infinity +f y = infinity
neg_infinity +f nan = nan
neg_infinity +f infinity = nan
neg_infinity +f y = neg_infinity
finite a +f y = y

unfoldable pub ◌-f◌ : F64 → F64 → F64
unfolding ◌+f◌ neg_f
x -f y = x +f neg_f y

-- The sign of a double, and of a product or a quotient.
pub data Sign : Type 0 where
  minus none_at_all plus : Sign

abbrev pub sign_of : F64 → Sign
sign_of nan = none_at_all
sign_of infinity = plus
sign_of neg_infinity = minus
sign_of (finite k) =
    if ltb_ℤ k (pos 0) then minus else if ltb_ℤ (pos 0) k then plus else none_at_all

abbrev pub times_sign : Sign → Sign → F64 → F64 → F64 → F64
times_sign plus plus z up down = up
times_sign minus minus z up down = up
times_sign plus minus z up down = down
times_sign minus plus z up down = down
times_sign _ _ z up down = z

abbrev pub size : ℤ → ℕ
size k = pos_part k + neg_part k

unfoldable pub ◌*f◌ : F64 → F64 → F64
unfolding positive negative round
nan *f y = nan
x *f nan = nan
finite a *f finite b =
    let n = round (size a * size b) scale in
    times_sign (sign_of (finite a)) (sign_of (finite b)) (finite (pos 0)) (positive n) (negative n)
x *f y = times_sign (sign_of x) (sign_of y) nan infinity neg_infinity

-- A divisor of zero counts as positive.
unfoldable pub ◌/f◌ : F64 → F64 → F64
unfolding positive negative round
nan /f y = nan
x /f nan = nan
finite a /f finite b = elim (size b == 0) [
  | true ↦ times_sign (sign_of (finite a)) plus nan infinity neg_infinity
  | false ↦
      let n = round (size a * scale) (size b) in
      times_sign (sign_of (finite a)) (sign_of (finite b)) (finite (pos 0)) (positive n)
        (negative n)
]
finite a /f y = finite (pos 0)
x /f finite b =
    times_sign (sign_of x) (if ltb_ℤ b (pos 0) then minus else plus) nan infinity neg_infinity
x /f y = nan

-- `<` and `<=`: false where one side is NaN.
abbrev pub ltb_f : F64 → F64 → Bool
ltb_f nan y = false
ltb_f x nan = false
ltb_f infinity y = false
ltb_f x neg_infinity = false
ltb_f neg_infinity y = true
ltb_f x infinity = true
ltb_f (finite a) (finite b) = ltb_ℤ a b

abbrev pub leb_f : F64 → F64 → Bool
leb_f nan y = false
leb_f x nan = false
leb_f neg_infinity y = true
leb_f x infinity = true
leb_f infinity y = false
leb_f x neg_infinity = false
leb_f (finite a) (finite b) = leb_ℤ a b

-- `f64::max` and `min` pass over NaN.
abbrev pub max_f : F64 → F64 → F64
max_f nan y = y
max_f x nan = x
max_f x y = if ltb_f x y then y else x

abbrev pub min_f : F64 → F64 → F64
min_f nan y = y
min_f x nan = x
min_f x y = if ltb_f y x then y else x

-- `clamp` leaves NaN as it is.
abbrev pub clamp_f : F64 → F64 → F64 → F64
clamp_f x lo hi = if ltb_f x lo then lo else if ltb_f hi x then hi else x

-- A literal n / d, and `as f64` of an integer.
unfoldable pub lit : ℕ → ℕ → F64
unfolding positive round
lit n d = positive (round (n * scale) d)

unfoldable pub from_int : ℤ → F64
unfolding rounded
from_int k = elim k [
  | pos n ↦ positive (round (n * scale) 1)
  | ℤ.negsuc n ↦ negative (round (suc n * scale) 1)
]

-- `as u64`: cut off toward zero, within the bounds of the type.
unfoldable pub to_u64 : F64 → ℕ
to_u64 nan = 0
to_u64 infinity = 2 ^ 64 - 1
to_u64 neg_infinity = 0
to_u64 (finite k) = min (2 ^ 64 - 1) (pos_part k / scale)

-- `ceil`, and `as i64`: cut off toward zero, within the bounds of the type.
unfoldable pub ceil_f : F64 → F64
ceil_f (finite (pos n)) = finite (pos ((n + (scale - 1)) / scale * scale))
ceil_f (finite (negsuc n)) = finite (sub_ℕ 0 (suc n / scale * scale))
ceil_f x = x

unfoldable pub to_i64 : F64 → ℤ
to_i64 nan = pos 0
to_i64 infinity = pos (2 ^ 63 - 1)
to_i64 neg_infinity = sub_ℕ 0 (2 ^ 63)
to_i64 (finite (pos n)) = pos (min (2 ^ 63 - 1) (n / scale))
to_i64 (finite (negsuc n)) = sub_ℕ 0 (min (2 ^ 63) (suc n / scale))

-- `%`: the exact remainder, with the sign of the dividend.
unfoldable pub rem_f : F64 → F64 → F64
rem_f (finite (pos a)) (finite b) = if size b == 0 then nan else finite (pos (a % size b))
rem_f (finite (negsuc a)) (finite b) =
    if size b == 0 then nan else finite (sub_ℕ 0 (suc a % size b))
rem_f (finite a) nan = nan
rem_f (finite a) y = finite a
rem_f x y = nan

-- `powi` for an exponent from 0, by repeated multiplication.
unfoldable pub powi : F64 → ℕ → F64
powi x zero = lit 1 1
powi x (suc n) = powi x n *f x
