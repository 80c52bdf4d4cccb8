-- ===== src/Streaming/Buffer.antt =====
-- `AnalyticsBuffer` of crates/proxy/src/streaming.rs: a copy of the stream up to a cap.
use mathlib.Core.List.{append_assoc, append-nil}
use better_ccflare_rs.Base.{
  ℕ, zero, suc, ◌+◌, ◌-◌, ◌≤◌, ◌<◌, ◌≡◌, refl, sym, ap, ◌∙◌, Bool, true, false, List, [], ◌∷◌, ◌++◌,
  arith, length, length-append, length-take, subst, take, ltb, leb, if◌then◌else◌, Bool-cases, inl,
  inr,
}

-- Bytes are numbers below 256.
abbrev pub Bytes : Type 0
Bytes = List ℕ

pub record AnalyticsBuffer : Type 0 where
  pub chunks : List Bytes
  pub total_bytes : ℕ
  pub truncated : Bool

abbrev pub new_buffer : AnalyticsBuffer
new_buffer = record { chunks = []; total_bytes = 0; truncated = false }

-- `push`, over the cap.
unfoldable pub push_capped : ℕ → AnalyticsBuffer → Bytes → AnalyticsBuffer
push_capped cap b chunk =
    let remaining = cap - b.total_bytes in
    if b.truncated
    then b
    else if leb (b.total_bytes + length chunk) cap
    then record b { chunks = b.chunks ++ (chunk ∷ []); total_bytes = b.total_bytes + length chunk }
    else if ltb 0 remaining
    then record b {
      chunks = b.chunks ++ (take remaining chunk ∷ []);
      total_bytes = b.total_bytes + remaining;
      truncated = true;
    }
    else record b { truncated = true }

abbrev pub analytics_max_bytes : ℕ
analytics_max_bytes = 1_048_576

unfoldable pub push : AnalyticsBuffer → Bytes → AnalyticsBuffer
push b chunk = push_capped analytics_max_bytes b chunk

abbrev pub flatten : List Bytes → Bytes
flatten [] = []
flatten (c ∷ cs) = c ++ flatten cs

unfoldable pub push_all : ℕ → AnalyticsBuffer → List Bytes → AnalyticsBuffer
push_all cap b [] = b
push_all cap b (c ∷ cs) = push_all cap (push_capped cap b c) cs

flatten-append : (cs ds : List Bytes) → flatten (cs ++ ds) ≡ flatten cs ++ flatten ds
flatten-append [] ds = refl
flatten-append (c ∷ cs) ds =
    rw (flatten-append cs ds) (sym (append_assoc c (flatten cs) (flatten ds)))

take-append_le :
    (n : ℕ) (xs ys : Bytes) → length xs ≤ n → take n (xs ++ ys) ≡ xs ++ take (n - length xs) ys
take-append_le zero [] ys h = refl
take-append_le (suc n) [] ys h = let e : suc n ≡ suc n - 0 = omega arith in ap (λ m. take m ys) e
take-append_le zero (x ∷ xs) ys h = absurd (omega arith)
take-append_le (suc n) (x ∷ xs) ys h =
    let e : suc n - suc (length xs) ≡ n - length xs = omega arith in
    rw e (ap (◌∷◌ x) (take-append_le n xs ys (omega arith)))

take_ge : (n : ℕ) (xs : Bytes) → length xs ≤ n → take n xs ≡ xs
take_ge zero [] h = refl
take_ge (suc n) [] h = refl
take_ge zero (x ∷ xs) h = absurd (omega arith)
take_ge (suc n) (x ∷ xs) h = ap (◌∷◌ x) (take_ge n xs (omega arith))

take-append_gt : (n : ℕ) (xs ys : Bytes) → n ≤ length xs → take n (xs ++ ys) ≡ take n xs
take-append_gt zero xs ys h = refl
take-append_gt (suc n) [] ys h = absurd (omega arith)
take-append_gt (suc n) (x ∷ xs) ys h = ap (◌∷◌ x) (take-append_gt n xs ys (omega arith))

-- What the buffer holds after a prefix of the stream.
pub record Holds (cap : ℕ) (seen : Bytes) (b : AnalyticsBuffer) : Type 0 where
  pub held : flatten b.chunks ≡ take cap seen
  pub counted : b.total_bytes ≡ length (flatten b.chunks)
  pub cut : b.truncated ≡ ltb cap (length seen)

take_zero : (xs : Bytes) → take 0 xs ≡ []
take_zero xs = refl

whole_held :
    (cap : ℕ) (seen : Bytes) (b : AnalyticsBuffer)
    → Holds cap seen b
    → b.truncated ≡ false
    → (flatten b.chunks ≡ seen) × (b.total_bytes ≡ length seen) × (length seen ≤ cap)
whole_held cap seen b h w =
    let fits : length seen ≤ cap = ground (arith, h.cut) in
    let e = h.held ∙ take_ge cap seen fits in (e, h.counted ∙ ap length e, fits)

-- The last chunk that is kept, cut to what fits.
keep_cut :
    (cap : ℕ) (seen chunk : Bytes) (b : AnalyticsBuffer)
    → flatten b.chunks ≡ seen
    → b.total_bytes ≡ length seen
    → length seen ≤ cap
    → flatten (b.chunks ++ (take (cap - b.total_bytes) chunk ∷ [])) ≡ take cap (seen ++ chunk)
keep_cut cap seen chunk b e n h =
    flatten-append b.chunks (take (cap - b.total_bytes) chunk ∷ [])
    ∙ ap (λ m. flatten b.chunks ++ m) (append-nil (take (cap - b.total_bytes) chunk))
    ∙ ap (λ m. m ++ take (cap - b.total_bytes) chunk) e
    ∙ ap (λ k. seen ++ take (cap - k) chunk) n
    ∙ sym (take-append_le cap seen chunk h)

push_cut :
    (cap : ℕ) (seen chunk : Bytes) (b : AnalyticsBuffer)
    → Holds cap seen b
    → b.truncated ≡ true
    → Holds cap (seen ++ chunk) (record b { truncated = true })
push_cut cap seen chunk b h cut =
    let over : cap < length seen = ground (arith, h.cut) in
    record {
      held = h.held ∙ sym (take-append_gt cap seen chunk (omega arith));
      counted = h.counted;
      cut = ground (arith, length-append seen chunk);
    }

push_fits :
    (cap : ℕ) (seen chunk : Bytes) (b : AnalyticsBuffer)
    → Holds cap seen b
    → b.truncated ≡ false
    → leb (b.total_bytes + length chunk) cap ≡ true
    → Holds cap (seen ++ chunk) (record {
      chunks = b.chunks ++ (chunk ∷ []);
      total_bytes = b.total_bytes + length chunk;
      truncated = false;
    })
push_fits cap seen chunk b h whole fits =
    let (e, n, le) = whole_held cap seen b h whole in
    let all =
      flatten-append b.chunks (chunk ∷ [])
      ∙ ap (λ m. flatten b.chunks ++ m) (append-nil chunk)
      ∙ ap (λ m. m ++ chunk) e in
    let size = length-append seen chunk in
    record {
      held = all ∙ sym (take_ge cap (seen ++ chunk) (ground (arith, size, n, fits)));
      counted = omega (arith, ap length all, size, n);
      cut = ground (arith, size, n, fits);
    }

push_part :
    (cap : ℕ) (seen chunk : Bytes) (b : AnalyticsBuffer)
    → Holds cap seen b
    → b.truncated ≡ false
    → leb (b.total_bytes + length chunk) cap ≡ false
    → Holds cap (seen ++ chunk) (record {
      chunks = b.chunks ++ (take (cap - b.total_bytes) chunk ∷ []);
      total_bytes = b.total_bytes + (cap - b.total_bytes);
      truncated = true;
    })
push_part cap seen chunk b h whole over =
    let (e, n, le) = whole_held cap seen b h whole in
    let all = keep_cut cap seen chunk b e n le in
    let size = length-append seen chunk in
    let big : cap < length (seen ++ chunk) = ground (arith, size, n, over) in
    record {
      held = all;
      counted = omega (arith, ap length all, length-take cap (seen ++ chunk), n);
      cut = ground (arith, big);
    }

push_full :
    (cap : ℕ) (seen chunk : Bytes) (b : AnalyticsBuffer)
    → Holds cap seen b
    → b.truncated ≡ false
    → leb (b.total_bytes + length chunk) cap ≡ false
    → ltb 0 (cap - b.total_bytes) ≡ false
    → Holds cap (seen ++ chunk) (record b { truncated = true })
push_full cap seen chunk b h whole over full =
    let (e, n, le) = whole_held cap seen b h whole in
    let none_left : cap - length seen ≡ 0 = ground (arith, n, full) in
    let size = length-append seen chunk in
    let big : cap < length (seen ++ chunk) = ground (arith, size, n, over) in
    record {
      held =
          e
          ∙ sym (
              take-append_le cap seen chunk le
              ∙ ap (λ k. seen ++ take k chunk) none_left
              ∙ append-nil seen);
      counted = h.counted;
      cut = ground (arith, big);
    }

-- A push keeps the buffer the cut-off copy of the stream.
pub push-Holds :
    (cap : ℕ) (seen chunk : Bytes) (b : AnalyticsBuffer)
    → Holds cap seen b
    → Holds cap (seen ++ chunk) (push_capped cap b chunk)
unfolding push_capped
push-Holds cap seen chunk b h = elim (Bool-cases b.truncated) [
  | inl cut ↦ rw cut (push_cut cap seen chunk b h cut)
  | inr whole ↦ elim (Bool-cases (leb (b.total_bytes + length chunk) cap)) [
    | inl fits ↦ rw (whole, fits) (push_fits cap seen chunk b h whole fits)
    | inr over ↦ elim (Bool-cases (ltb 0 (cap - b.total_bytes))) [
      | inl some_left ↦ rw (whole, over, some_left) (push_part cap seen chunk b h whole over)
      | inr full ↦ rw (whole, over, full) (push_full cap seen chunk b h whole over full)
    ]
  ]
]

push_all-Holds :
    (cap : ℕ) (cs : List Bytes) (seen : Bytes) (b : AnalyticsBuffer)
    → Holds cap seen b
    → Holds cap (seen ++ flatten cs) (push_all cap b cs)
unfolding push_all
push_all-Holds cap [] seen b h = rw (append-nil seen) h
push_all-Holds cap (c ∷ cs) seen b h =
    subst (λ all. Holds cap all (push_all cap b (c ∷ cs))) (append_assoc seen c (flatten cs))
      (push_all-Holds cap cs (seen ++ c) (push_capped cap b c) (push-Holds cap seen c b h))

-- However the stream is cut into chunks, the buffer ends up with its first bytes up to the cap, knows
-- their number, and is marked truncated exactly when there were more.
pub push_all_copies :
    (cap : ℕ) (cs : List Bytes) → Holds cap (flatten cs) (push_all cap new_buffer cs)
push_all_copies cap cs = push_all-Holds cap cs [] new_buffer (empty_held cap)
  where
    empty_held : (cap : ℕ) → Holds cap [] new_buffer
    empty_held zero = record { held = refl; counted = refl; cut = refl }
    empty_held (suc n) = record { held = refl; counted = refl; cut = ground arith }
