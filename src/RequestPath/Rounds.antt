-- ===== src/RequestPath/Rounds.antt =====
-- The rounds of decoding of crates/core/src/path_validator.rs.
use better_ccflare_rs.Base.{
  ℕ, zero, suc, ◌≤◌, ◌<◌, ◌≡◌, refl, sym, ap, ◌∙◌, ◌↔◌, inl, inr, true, false, [], ◌∷◌, arith,
  Bool-cases,
}
use better_ccflare_rs.Base.Text.{same}
use better_ccflare_rs.RequestPath.{
  Bytes, simple_percent_decode, is_bad, rounds, max_rounds, is_safe_request_path,
}

-- The path after `k` rounds of decoding.
pub decoded : ℕ → Bytes → Bytes
decoded zero path = path
decoded (suc k) path = decoded k (simple_percent_decode path)

same→eq : (cs ds : Bytes) → same cs ds ≡ true → cs ≡ ds
unfolding same
same→eq [] [] e = refl
same→eq [] (d ∷ ds) e = cc
same→eq (c ∷ cs) [] e = cc
same→eq (c ∷ cs) (d ∷ ds) e =
    let heads : c ≡ d = ground (arith, e) in
    let tails : same cs ds ≡ true = ground (arith, e) in let equal = same→eq cs ds tails in cc

-- Once a round changes nothing, no later round does.
decoded-stable : (k : ℕ) (path : Bytes) → simple_percent_decode path ≡ path → decoded k path ≡ path
unfolding decoded
decoded-stable zero path e = refl
decoded-stable (suc k) path e = rw e (decoded-stable k path e)

later :
    (n : ℕ) (path : Bytes) (k : ℕ)
    → k < suc n
    → is_bad (simple_percent_decode path) ≡ false
    → ((j : ℕ) → j < n → is_bad (decoded (suc j) (simple_percent_decode path)) ≡ false)
    → is_bad (decoded (suc k) path) ≡ false
unfolding decoded
later n path zero lt clean ih = clean
later n path (suc k) lt clean ih = ih k (omega arith)

first :
    (n : ℕ) (path : Bytes)
    → ((k : ℕ) → k < suc n → is_bad (decoded (suc k) path) ≡ false)
    → is_bad (simple_percent_decode path) ≡ false
unfolding decoded
first n path h = h 0 (omega arith)

after :
    (path : Bytes) (k : ℕ)
    → is_bad (decoded (suc (suc k)) path) ≡ false
    → is_bad (decoded (suc k) (simple_percent_decode path)) ≡ false
unfolding decoded
after path k h = h

rounds_sound :
    (n : ℕ) (path : Bytes)
    → rounds n path ≡ true
    → (k : ℕ) → k < n
    → is_bad (decoded (suc k) path) ≡ false
unfolding rounds
rounds_sound zero path h k lt = absurd (omega arith)
rounds_sound (suc n) path h k lt =
    let next = simple_percent_decode path in
    let clean : is_bad next ≡ false = ground (arith, h) in
    elim (Bool-cases (same next path)) [
      | inl e ↦
          let stable = same→eq next path e in
          ap is_bad (decoded-stable (suc k) path stable ∙ sym stable) ∙ clean
      | inr e ↦
          let rest : rounds n next ≡ true = ground (arith, h, e, clean) in
          later n path k lt clean (λ j. rounds_sound n next rest j)
    ]

rounds_complete :
    (n : ℕ) (path : Bytes)
    → ((k : ℕ) → k < n → is_bad (decoded (suc k) path) ≡ false)
    → rounds n path ≡ true
unfolding rounds
rounds_complete zero path h = refl
rounds_complete (suc n) path h =
    let next = simple_percent_decode path in
    let clean = first n path h in
    let rest = rounds_complete n next (λ k lt. after path k (h (suc k) (omega arith))) in
    rw clean (ground (arith, rest))

-- The test accepts a path exactly when neither the path nor what any of eight rounds of decoding
-- makes of it has a `..` or a null byte: to stop at the first round that changes nothing is safe.
pub safe_iff :
    (path : Bytes)
    → (is_safe_request_path path ≡ true)
      ↔ ((k : ℕ) → k ≤ max_rounds → is_bad (decoded k path) ≡ false)
unfolding is_safe_request_path decoded
safe_iff path = (sound, complete)
  where
    sound :
        is_safe_request_path path ≡ true
        → (k : ℕ) → k ≤ max_rounds
        → is_bad (decoded k path) ≡ false
    sound h zero le = ground (arith, h)
    sound h (suc k) le =
        let passed : rounds max_rounds path ≡ true = ground (arith, h) in
        rounds_sound max_rounds path passed k (omega arith)

    complete :
        ((k : ℕ) → k ≤ max_rounds → is_bad (decoded k path) ≡ false)
        → is_safe_request_path path ≡ true
    complete h =
        rw (h 0 (omega arith)) (rounds_complete max_rounds path (λ k lt. h (suc k) (omega arith)))
