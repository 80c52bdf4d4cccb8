-- ===== src/Retry/Attempts.antt =====
-- The attempts of crates/database/src/retry.rs.
use better_ccflare_rs.Base.{
  ℕ, zero, suc, ◌+◌, ◌<◌, ◌≡◌, refl, sym, ap, subst, ◌⊎◌, inl, inr, Bool, true, false, ◌&&◌, Option,
  none, some, List, [], ◌∷◌, arith, ltb, Bool-cases,
}
use better_ccflare_rs.Tokens.{Answer, ok, err}
use better_ccflare_rs.Retry.{
  DbError, is_busy, busy_timeout, RetryConfig, delay_for_attempt, Outcome, retry_loop, with_retry,
  done,
}

Answer-cases : {A E : Type 0} (a : Answer A E) → ((v : A) × (a ≡ ok v)) ⊎ ((e : E) × (a ≡ err e))
Answer-cases (ok v) = inl (v, refl)
Answer-cases (err e) = inr (e, refl)

module _ {S T : Type 0} (c : RetryConfig) (f : S → S × Answer T DbError) where
  -- The state that the attempt with a number finds, and what it answers.
  abbrev pub state_at : S → ℕ → S
  state_at s zero = s
  state_at s (suc n) = state_at (f s).0 n

  abbrev pub answer_at : S → ℕ → Answer T DbError
  answer_at s n = (f (state_at s n)).1

  abbrev pub Busy : Answer T DbError → Type 0
  Busy a = (e : DbError) × (a ≡ err e) × (is_busy e ≡ true)

  -- The delays before the attempts after the first, up to a number.
  abbrev pub delays : (from count : ℕ) → List ℕ
  delays from zero = []
  delays from (suc n) = delay_for_attempt c from ∷ delays (from + 1) n

  -- A run ends with the attempt n: those before found the database busy, it did not or was the last.
  pub record EndsAt (left attempt n : ℕ) (s : S) (o : Outcome S T) : Type 0 where
    pub within : n < left
    pub retried : (i : ℕ) → i < n → Busy (answer_at s i)
    pub result : o.result ≡ answer_at s n
    pub state : o.state ≡ state_at s (suc n)
    pub slept : o.slept ≡ delays attempt n
    pub stops : (suc n ≡ left) ⊎ (Busy (answer_at s n) → ⊥)

  -- The three ways that an attempt goes.
  loop-ok :
      (left attempt : ℕ) (last : Option DbError) (s : S) (v : T)
      → answer_at s 0 ≡ ok v
      → retry_loop c f (suc left) attempt last s ≡ done (f s).0 (ok v)
  unfolding retry_loop
  loop-ok left attempt last s v h = rw (h, retry_loop) refl

  loop-err :
      (left attempt : ℕ) (last : Option DbError) (s : S) (e : DbError)
      → answer_at s 0 ≡ err e
      → is_busy e && ltb (attempt + 1) c.max_attempts ≡ false
      → retry_loop c f (suc left) attempt last s ≡ done (f s).0 (err e)
  unfolding retry_loop
  loop-err left attempt last s e h k = ground (arith, h, k)

  abbrev slept_before : ℕ → Outcome S T → Outcome S T
  slept_before attempt o = record {
    state = o.state;
    result = o.result;
    slept = delay_for_attempt c attempt ∷ o.slept;
  }

  loop-again :
      (left attempt : ℕ) (last : Option DbError) (s : S) (e : DbError)
      → answer_at s 0 ≡ err e
      → is_busy e && ltb (attempt + 1) c.max_attempts ≡ true
      → retry_loop c f (suc left) attempt last s
        ≡ slept_before attempt (retry_loop c f left (attempt + 1) (some e) (f s).0)
  unfolding retry_loop
  loop-again left attempt last s e h k = ground (arith, h, k)

  first :
      (left attempt : ℕ) (s : S) (a : Answer T DbError)
      → answer_at s 0 ≡ a
      → (zero ≡ left) ⊎ (Busy a → ⊥)
      → EndsAt (suc left) attempt 0 s (done (f s).0 a)
  first left attempt s a h w = record {
    within = omega arith;
    retried = λ i l. absurd (omega arith);
    result = sym h;
    state = refl;
    slept = refl;
    stops = elim w [ inl z ↦ inl (ap suc z) | inr k ↦ inr (subst (λ x. Busy x → ⊥) (sym h) k) ];
  }

  again :
      (left attempt n : ℕ) (s : S) (e : DbError) (o : Outcome S T)
      → answer_at s 0 ≡ err e
      → is_busy e ≡ true
      → EndsAt left (attempt + 1) n (f s).0 o
      → EndsAt (suc left) attempt (suc n) s (slept_before attempt o)
  again left attempt n s e o h b r = record {
    within = omega (arith, r.within);
    retried = busy;
    result = r.result;
    state = r.state;
    slept = ap (◌∷◌ (delay_for_attempt c attempt)) r.slept;
    stops = elim r.stops [ inl z ↦ inl (ap suc z) | inr k ↦ inr k ];
  }
    where
      busy : (i : ℕ) → i < suc n → Busy (answer_at s i)
      busy zero l = (e, h, b)
      busy (suc i) l = r.retried i (omega arith)

  Ends : (left attempt : ℕ) → S → Outcome S T → Type 0
  Ends left attempt s o = (n : ℕ) × EndsAt left attempt n s o

  ok_absurd : (v : T) → Busy (ok v) → ⊥
  ok_absurd v (e, h, b) = cc

  Busy-absurd : (e : DbError) → is_busy e ≡ false → Busy (err e) → ⊥
  Busy-absurd e h (x, k, b) = ground (arith, h, k, b)

  over : (x : Bool) (a : ℕ) → a ≡ c.max_attempts → x && ltb a c.max_attempts ≡ false
  over x a h = ground (arith, h)

  under : (x : Bool) (a : ℕ) → x ≡ true → a < c.max_attempts → x && ltb a c.max_attempts ≡ true
  under x a h k = ground (arith, h, k)

  last_err :
      (attempt : ℕ) (last : Option DbError) (s : S) (e : DbError)
      → 1 + attempt ≡ c.max_attempts
      → answer_at s 0 ≡ err e
      → Ends 1 attempt s (retry_loop c f 1 attempt last s)
  unfolding Ends
  last_err attempt last s e q h =
      subst (Ends 1 attempt s)
        (sym (loop-err 0 attempt last s e h (over (is_busy e) (attempt + 1) (omega arith))))
        (0, first 0 attempt s (err e) h (inl refl))

  loop_ok_end :
      (left attempt : ℕ) (last : Option DbError) (s : S) (v : T)
      → answer_at s 0 ≡ ok v
      → Ends (suc left) attempt s (retry_loop c f (suc left) attempt last s)
  unfolding Ends
  loop_ok_end left attempt last s v h =
      subst (Ends (suc left) attempt s) (sym (loop-ok left attempt last s v h))
        (0, first left attempt s (ok v) h (inr (ok_absurd v)))

  -- The number left counts down as the attempt counts up.
  ends :
      (left attempt : ℕ) (last : Option DbError) (s : S)
      → suc left + attempt ≡ c.max_attempts
      → Ends (suc left) attempt s (retry_loop c f (suc left) attempt last s)
  unfolding Ends
  ends zero attempt last s q = elim (Answer-cases (answer_at s 0)) [
    | inl (v, h) ↦ loop_ok_end 0 attempt last s v h
    | inr (e, h) ↦ last_err attempt last s e q h
  ]
  ends (suc k) attempt last s q = elim (Answer-cases (answer_at s 0)) [
    | inl (v, h) ↦ loop_ok_end (suc k) attempt last s v h
    | inr (e, h) ↦ elim (Bool-cases (is_busy e)) [
      | inl b ↦
          let (n, r) = ends k (attempt + 1) (some e) (f s).0 (omega (arith, q)) in
          let more = under (is_busy e) (attempt + 1) b (omega (arith, q)) in
          subst (Ends (suc (suc k)) attempt s) (sym (loop-again (suc k) attempt last s e h more))
            (suc n, again (suc k) attempt n s e _ h b r)
      | inr b ↦
          subst (Ends (suc (suc k)) attempt s)
            (sym (loop-err (suc k) attempt last s e h (rw b refl)))
            (0, first (suc k) attempt s (err e) h (inr (Busy-absurd e b)))
    ]
  ]

  from_start :
      (m : ℕ) (s : S)
      → m ≡ c.max_attempts
      → ((m ≡ 0) × (retry_loop c f m 0 none s ≡ done s (err busy_timeout)))
        ⊎ Ends m 0 s (retry_loop c f m 0 none s)
  unfolding retry_loop
  from_start zero s h = inl (refl, refl)
  from_start (suc left) s h = inr (ends left 0 none s (omega (arith, h)))

  -- With at least one attempt allowed the closure is run a first time, and again as long as it finds the
  -- database busy and attempts are left: the result and the state are those of the last run, which is
  -- one of the allowed ones, and each run before it was turned down as busy and followed by the delay
  -- of its number. With none allowed the closure is not run and the error is that of a busy database.
  pub with_retry_lem :
      (s : S)
      → ((c.max_attempts ≡ 0) × (with_retry c f s ≡ done s (err busy_timeout)))
        ⊎ ((n : ℕ) × EndsAt c.max_attempts 0 n s (with_retry c f s))
  unfolding with_retry Ends
  with_retry_lem s = from_start c.max_attempts s refl
