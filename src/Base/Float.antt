-- ===== src/Base/Float.antt =====
-- `f64` percentages. A finite double is a whole multiple of 2 ^ -1074, so `finite k`, which stands for
-- k / 2 ^ 1074, covers every finite value exactly; the program only tests them against integers.
use better_ccflare_rs.Base.Int.{ℤ, pos_part, neg_part, ◌≤ℤ◌}
use Prim.Native.Nat.{ℕ, ◌+◌, ◌*◌, ◌^◌, ◌≤◌}
use mathlib.Core.Path.{◌≡◌, refl}
use mathlib.Core.Bool.{Bool, true, false}
use native.Mathlib.Omega.{arith}
use better_ccflare_rs.Base.Tests.{leb}

pub data F64 : Type 0 where
  nan : F64
  infinity neg_infinity : F64
  finite : ℤ → F64

-- 2 ^ 1074, the number of steps of the smallest double in 1.
unfoldable pub scale : ℕ
scale = 2 ^ 1074

abbrev pub is_finite : F64 → Bool
is_finite (finite k) = true
is_finite _ = false

-- `x >= n as f64`, for an integer that a double holds exactly (up to 2 ^ 53).
unfoldable pub ge_int : F64 → ℤ → Bool
ge_int nan n = false
ge_int infinity n = true
ge_int neg_infinity n = false
ge_int (finite k) n = leb (pos_part n * scale + neg_part k) (pos_part k + neg_part n * scale)

-- A value at or above `n` is at or above every smaller integer.
pub ge_int_mono : (x : F64) (m n : ℤ) → m ≤ℤ n → ge_int x n ≡ true → ge_int x m ≡ true
unfolding ge_int
ge_int_mono nan m n h g = g
ge_int_mono infinity m n h g = refl
ge_int_mono neg_infinity m n h g = g
ge_int_mono (finite k) m n h g =
    ground (arith, scaled (pos_part m + neg_part n) (pos_part n + neg_part m) scale h)
  where
    scaled : (a b c : ℕ) → a ≤ b → a * c ≤ b * c
    scaled a b c p = grind arith
