-- ===== src/Base/Text.antt =====
-- Texts as lists of code points, and the `str` methods that walk them.
use Prim.Native.Nat.{ℕ, ◌+◌}
use Prim.Native.Char.{code}
use Prim.Native.String.{String}
use mathlib.Core.Bool.{Bool, true, false, ◌&&◌, ◌||◌}
use mathlib.Core.List.{List, [], ◌∷◌, map, reverse}
use better_ccflare_rs.Base.Tests.{leb, ltb, ◌==◌, if◌then◌else◌, and_then}
use mathlib.Core.Option.{Option, none, some}
use mathlib.Core.Bool.{not}
use mathlib.Core.List.{◌++◌}
use Prim.Native.Nat.{◌-◌, ◌*◌}

abbrev pub codes : String → List ℕ
codes String.[] = []
codes (String.◌∷◌ c s) = code c ∷ codes s

-- `to_ascii_lowercase`.
abbrev pub lower : ℕ → ℕ
lower c = if leb b'A' c && leb c b'Z' then c + 32 else c

abbrev pub to_ascii_lowercase : List ℕ → List ℕ
to_ascii_lowercase = map lower

-- `starts_with` and `contains`.
unfoldable pub starts_with : List ℕ → List ℕ → Bool
starts_with cs [] = true
starts_with [] (p ∷ ps) = false
starts_with (c ∷ cs) (p ∷ ps) = c == p && starts_with cs ps

unfoldable pub contains : List ℕ → List ℕ → Bool
unfolding starts_with
contains [] p = starts_with [] p
contains (c ∷ cs) p = starts_with (c ∷ cs) p || contains cs p

unfoldable pub same : List ℕ → List ℕ → Bool
same [] [] = true
same (c ∷ cs) (d ∷ ds) = c == d && same cs ds
same _ _ = false

-- The code points of the property White_Space, which `trim` takes off at both ends.
unfoldable pub is_whitespace : ℕ → Bool
is_whitespace c =
    (leb 9 c && leb c 13)
    || c == 32
    || c == 0x85
    || c == 0xa0
    || c == 0x1680
    || (leb 0x2000 c && leb c 0x200a)
    || c == 0x2028
    || c == 0x2029
    || c == 0x202f
    || c == 0x205f
    || c == 0x3000

trim_start : List ℕ → List ℕ
unfolding is_whitespace
trim_start [] = []
trim_start (c ∷ cs) = let rest = trim_start cs in if is_whitespace c then rest else c ∷ cs

unfoldable pub trim : List ℕ → List ℕ
unfolding trim_start
trim cs = reverse (trim_start (reverse (trim_start cs)))

-- `str::from_utf8`: the code points of well-formed UTF-8. Between two bytes the decoder awaits
-- `more` continuation bytes, the next of them within bounds that rule out overlong forms,
-- surrogates and values past 0x10ffff.
pub data Utf8 : Type 0 where
  ready : Utf8
  awaits : (more lo hi value : ℕ) → Utf8

abbrev within : ℕ → ℕ → ℕ → Bool
within lo hi b = leb lo b && leb b hi

unfoldable pub lead : ℕ → Option (Utf8 × List ℕ)
lead b =
    if ltb b 0x80
    then some (ready, b ∷ [])
    else if within 0xc2 0xdf b
    then some (awaits 1 0x80 0xbf (b - 0xc0), [])
    else if b == 0xe0
    then some (awaits 2 0xa0 0xbf 0, [])
    else if b == 0xed
    then some (awaits 2 0x80 0x9f 0xd, [])
    else if within 0xe1 0xef b
    then some (awaits 2 0x80 0xbf (b - 0xe0), [])
    else if b == 0xf0
    then some (awaits 3 0x90 0xbf 0, [])
    else if within 0xf1 0xf3 b
    then some (awaits 3 0x80 0xbf (b - 0xf0), [])
    else if b == 0xf4
    then some (awaits 3 0x80 0x8f 4, [])
    else none

unfoldable pub advance : Utf8 → ℕ → Option (Utf8 × List ℕ)
unfolding lead
advance ready b = lead b
advance (awaits more lo hi value) b =
    let next = value * 64 + (b - 0x80) in
    if not (within lo hi b)
    then none
    else if more == 1
    then some (ready, next ∷ [])
    else some (awaits (more - 1) 0x80 0xbf next, [])

decode_from : Utf8 → List ℕ → Option (List ℕ)
unfolding advance
decode_from ready [] = some []
decode_from (awaits more lo hi value) [] = none
decode_from s (b ∷ bs) =
    let rest = λ (t : Utf8). decode_from t bs in
    and_then (advance s b) (λ t. and_then (rest t.0) (λ cs. some (t.1 ++ cs)))

unfoldable pub from_utf8 : List ℕ → Option (List ℕ)
unfolding decode_from
from_utf8 bytes = decode_from ready bytes

-- `strip_prefix` and `strip_suffix`.
unfoldable pub strip_prefix : List ℕ → List ℕ → Option (List ℕ)
strip_prefix [] cs = some cs
strip_prefix (p ∷ ps) [] = none
strip_prefix (p ∷ ps) (c ∷ cs) = let rest = strip_prefix ps cs in if c == p then rest else none
