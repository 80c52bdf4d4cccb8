-- ===== src/RequestPath.antt =====
-- crates/core/src/path_validator.rs: the test of a URL's path for directory traversal. A path is its
-- bytes in UTF-8.
pub mod Rounds
use better_ccflare_rs.Base.{
  ℕ, zero, suc, ◌+◌, ◌-◌, ◌*◌, ◌/◌, ◌≤◌, ◌<◌, min, max, String, ◌≡◌, refl, sym, ap, subst, ◌∙◌, ◌≢◌,
  ◌↔◌, ◌⊎◌, inl, inr, Bool, true, false, not, ◌&&◌, ◌||◌, Option, none, some, List, [], ◌∷◌, ◌++◌,
  map, arith, str_eq, str_eq_iff, ltb, leb, ◌==◌, if◌then◌else◌, Bool-cases, length, take,
  get_elem?, filter, any, In, All, Pairs, All-In, All-of_In, length-append, length-take,
}
use better_ccflare_rs.Base.Text.{Utf8, ready, awaits, lead, advance, contains, same, codes}

abbrev pub Bytes : Type 0
Bytes = List ℕ

unfoldable pub hex_val : ℕ → Option ℕ
hex_val b =
    if leb b'0' b && leb b b'9'
    then some (b - b'0')
    else if leb b'a' b && leb b b'f'
    then some (b - b'a' + 10)
    else if leb b'A' b && leb b b'F'
    then some (b - b'A' + 10)
    else none

-- `String::from_utf8_lossy`, on bytes: each longest piece that is no UTF-8 becomes U+FFFD. `pending`
-- are the bytes of a character that is not complete.
abbrev replacement : Bytes
replacement = 0xef ∷ 0xbf ∷ 0xbd ∷ []

abbrev resume : (Utf8 → Bytes → Bytes) → Utf8 → Bytes → Bytes
resume go ready held = held ++ go ready []
resume go (awaits more lo hi value) held = go (awaits more lo hi value) held

unfoldable pub lossy_from : Utf8 → Bytes → Bytes → Bytes
lossy_from ready pending [] = []
lossy_from (awaits more lo hi value) pending [] = replacement
lossy_from s pending (b ∷ bs) =
    let go = λ (t : Utf8) (held : Bytes). lossy_from t held bs in
    let start : Bytes = elim (lead b) [
      | none ↦ replacement ++ go ready []
      | some (t, cs) ↦ resume go t (b ∷ [])
    ] in
    elim (advance s b) [
      | some (t, cs) ↦ resume go t (pending ++ (b ∷ []))
      | none ↦ elim s [ ready ↦ start | awaits more lo hi value ↦ replacement ++ start ]
    ]

unfoldable pub from_utf8_lossy : Bytes → Bytes
from_utf8_lossy = lossy_from ready []

-- The loop over the index, on the bytes from there on.
unfoldable pub decode_bytes : Bytes → Bytes
decode_bytes [] = []
decode_bytes (b ∷ []) = b ∷ []
decode_bytes (b ∷ c ∷ []) = b ∷ c ∷ []
decode_bytes (b ∷ h ∷ l ∷ bs) =
    let next = decode_bytes (h ∷ l ∷ bs) in
    let after = decode_bytes bs in
    if b == b'%'
    then elim (hex_val h) [
      | none ↦ b ∷ next
      | some hi ↦ elim (hex_val l) [ none ↦ b ∷ next | some lo ↦ (hi * 16 + lo) ∷ after ]
    ]
    else b ∷ next

unfoldable pub simple_percent_decode : Bytes → Bytes
simple_percent_decode input = from_utf8_lossy (decode_bytes input)

-- `contains("..") || contains('\0')`.
unfoldable pub is_bad : Bytes → Bool
is_bad path = contains path (codes "..") || contains path (0 ∷ [])

-- The `for` loop: the rounds that are left, and the text so far.
unfoldable pub rounds : ℕ → Bytes → Bool
rounds zero current = true
rounds (suc n) current =
    let decoded = simple_percent_decode current in
    let rest = rounds n decoded in
    if is_bad decoded then false else if same decoded current then true else rest

abbrev pub max_rounds : ℕ
max_rounds = 8

unfoldable pub is_safe_request_path : Bytes → Bool
is_safe_request_path path = if is_bad path then false else rounds max_rounds path
