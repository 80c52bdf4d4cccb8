-- ===== src/Failover/Order.antt =====
-- The failover loop of crates/proxy/src/handler.rs: what it calls, and when it gives up.
use better_ccflare_rs.Base.{
  ℕ, suc, String, ◌≡◌, refl, sym, subst, inl, inr, true, false, ◌||◌, List, [], ◌∷◌, ◌++◌, arith,
  str_eq, Bool-cases, In, All, Pairs, All-In, All-of_In,
}
use better_ccflare_rs.Account.{Account}
use better_ccflare_rs.Failover.{
  AccountResult, success, rate_limited, auth_failed, failed, Failover, is_limited, try_loop,
  on_result, record_call,
}

pub is_limited-append :
    (l : List String) (p : String) (a : Account)
    → is_limited (l ++ (p ∷ [])) a ≡ (is_limited l a || str_eq p a.provider)
unfolding is_limited
is_limited-append [] p a = ground arith
is_limited-append (q ∷ l) p a = ground (arith, is_limited-append l p a)

module _ {Response RateLimitInfo : Type 0} where
  -- The closure's answer is "rate-limited" or "success".
  abbrev pub Limits : AccountResult Response RateLimitInfo → Type 0
  Limits (rate_limited info) = Unit {0}
  Limits _ = ⊥

  abbrev pub Succeeds : AccountResult Response RateLimitInfo → Type 0
  Succeeds (success response) = Unit {0}
  Succeeds _ = ⊥

  module _ (try_account : Account → ℕ → AccountResult Response RateLimitInfo) where
    -- The state of the loop after a call that did not succeed.
    abbrev next_limited : List String → Account → AccountResult Response RateLimitInfo → List String
    next_limited limited a (rate_limited info) = limited ++ (a.provider ∷ [])
    next_limited limited a _ = limited

    pub try_loop-skip :
        (l : List String) (n : ℕ) (a : Account) (rest : List Account)
        → is_limited l a ≡ true
        → try_loop try_account l n (a ∷ rest) ≡ try_loop try_account l (suc n) rest
    unfolding try_loop
    try_loop-skip l n a rest e = rw e refl

    pub try_loop-call :
        (l : List String) (n : ℕ) (a : Account) (rest : List Account)
        → is_limited l a ≡ false
        → try_loop try_account l n (a ∷ rest)
          ≡ record_call a n (
              on_result
                (λ providers. try_loop try_account providers (suc n) rest)
                l
                a
                (try_account a n))
    unfolding try_loop
    try_loop-call l n a rest e = rw e refl

    -- Every call is of a provider outside `l`, and none follows a "rate-limited" of its provider.
    abbrev pub Free : List String → Account × ℕ → Type 0
    Free l y = is_limited l y.0 ≡ false

    abbrev pub Apart : Account × ℕ → Account × ℕ → Type 0
    Apart x y = Limits (try_account x.0 x.1) → str_eq x.0.provider y.0.provider ≡ false

    abbrev pub Calls : List String → Failover Response → Type 0
    Calls l f = All (Free l) f.tried × Pairs Apart f.tried

    Free-append :
        (l : List String) (a : Account) (y : Account × ℕ)
        → Free (l ++ (a.provider ∷ [])) y
        → Free l y × (str_eq a.provider y.0.provider ≡ false)
    Free-append l a y h = ground (arith, is_limited-append l a.provider y.0, h)

    limited_step :
        (l : List String) (n : ℕ) (a : Account) (f : Failover Response)
        → is_limited l a ≡ false
        → Calls (l ++ (a.provider ∷ [])) f
        → Calls l (record_call a n f)
    limited_step l n a f e (free, apart) =
        let without = λ (y : Account × ℕ) (i : In y f.tried).
          Free-append l a y (All-In (Free (l ++ (a.provider ∷ []))) y f.tried free i) in
        let all_free = All-of_In (Free l) f.tried (λ y i. (without y i).0) in
        let all_apart = All-of_In (Apart (a, n)) f.tried (λ y i lim. (without y i).1) in
        ((e, all_free), (all_apart, apart))

    other_step :
        (l : List String) (n : ℕ) (a : Account) (f : Failover Response)
        → is_limited l a ≡ false
        → (Limits (try_account a n) → ⊥)
        → Calls l f
        → Calls l (record_call a n f)
    other_step l n a f e not_limited (free, apart) =
        let all_apart = All-of_In (Apart (a, n)) f.tried (λ y i lim. absurd (not_limited lim)) in
        ((e, free), (all_apart, apart))

    Calls-step :
        (l : List String) (n : ℕ) (a : Account)
        → (go : List String → Failover Response) → is_limited l a ≡ false
        → ((k : List String) → Calls k (go k))
        → (r : AccountResult Response RateLimitInfo) → try_account a n ≡ r
        → Calls l (record_call a n (on_result go l a r))
    Calls-step l n a go e ih (success response) h = ((e, tt), (tt, tt))
    Calls-step l n a go e ih (rate_limited info) h =
        limited_step l n a (go (l ++ (a.provider ∷ []))) e (ih (l ++ (a.provider ∷ [])))
    Calls-step l n a go e ih (auth_failed status) h =
        other_step l n a (go l) e (λ lim. subst Limits h lim) (ih l)
    Calls-step l n a go e ih (failed message) h =
        other_step l n a (go l) e (λ lim. subst Limits h lim) (ih l)

    pub try_loop-Calls :
        (l : List String) (n : ℕ) (rest : List Account) → Calls l (try_loop try_account l n rest)
    unfolding try_loop
    try_loop-Calls l n [] = (tt, tt)
    try_loop-Calls l n (a ∷ rest) = elim (Bool-cases (is_limited l a)) [
      | inl e ↦ subst (Calls l) (sym (try_loop-skip l n a rest e)) (try_loop-Calls l (suc n) rest)
      | inr e ↦ subst (Calls l) (sym (try_loop-call l n a rest e)) (
          Calls-step l n a (λ k. try_loop try_account k (suc n) rest) e
            (λ k. try_loop-Calls k (suc n) rest) (try_account a n) refl)
    ]
