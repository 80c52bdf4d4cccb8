-- ===== src/Failover/Reasons.antt =====
-- The failover loop of crates/proxy/src/handler.rs: why an account has not served the request.
use better_ccflare_rs.Base.{
  ℕ, suc, ◌≤◌, ◌<◌, String, ◌≡◌, refl, sym, ap, subst, ◌∙◌, ◌⊎◌, inl, inr, true, none, List, [],
  ◌∷◌, ◌++◌, arith, str_eq, Bool-cases, In,
}
use better_ccflare_rs.Account.{Account}
use better_ccflare_rs.Failover.{
  AccountResult, success, rate_limited, auth_failed, failed, Failover, is_limited, try_loop,
  on_result, record_call,
}
use better_ccflare_rs.Failover.Order.{
  is_limited-append, Limits, Succeeds, try_loop-skip, try_loop-call,
}

module _ {Response RateLimitInfo : Type 0}
    (try_account : Account → ℕ → AccountResult Response RateLimitInfo) where
  -- The entry of a list at a position counted from `n`.
  abbrev pub Entry : ℕ → List Account → ℕ → Account → Type 0
  Entry n [] m a = ⊥
  Entry n (x ∷ xs) m a = ((m ≡ n) × (a ≡ x)) ⊎ Entry (suc n) xs m a

  -- An earlier account of the same provider answered "rate-limited".
  abbrev pub Shadowed : ℕ → List Account → ℕ → Account → Type 0
  Shadowed n rest m a =
      (k : ℕ) × (b : Account) × (k < m)
      × Entry n rest k b
      × Limits (try_account b k)
      × (str_eq b.provider a.provider ≡ true)

  abbrev pub Called : Failover Response → ℕ → Account → Type 0
  Called f m a = In (a, m) f.tried × (Succeeds (try_account a m) → ⊥)

  -- Why an account has not served the request.
  abbrev pub Reason : List String → ℕ → List Account → Failover Response → ℕ → Account → Type 0
  Reason l n rest f m a = (is_limited l a ≡ true) ⊎ (Called f m a ⊎ Shadowed n rest m a)

  pub Entry-le : (n : ℕ) (xs : List Account) (m : ℕ) (a : Account) → Entry n xs m a → n ≤ m
  Entry-le n [] m a h = absurd h
  Entry-le n (x ∷ xs) m a (inl h) = omega (arith, h.0)
  Entry-le n (x ∷ xs) m a (inr h) = omega (arith, Entry-le (suc n) xs m a h)

  Shadowed-later :
      (n : ℕ) (x : Account) (rest : List Account) (m : ℕ) (a : Account)
      → Shadowed (suc n) rest m a
      → Shadowed n (x ∷ rest) m a
  Shadowed-later n x rest m a (k, b, lt, entry, lim, eq) = (k, b, lt, inr entry, lim, eq)

  -- The reasons of the rest are reasons of the whole.
  skip-Reason :
      (l : List String) (n : ℕ) (x : Account) (rest : List Account) (f : Failover Response) (m : ℕ)
      → (a : Account) → Reason l (suc n) rest f m a
      → Reason l n (x ∷ rest) f m a
  skip-Reason l n x rest f m a (inl h) = inl h
  skip-Reason l n x rest f m a (inr (inl h)) = inr (inl h)
  skip-Reason l n x rest f m a (inr (inr h)) = inr (inr (Shadowed-later n x rest m a h))

  other-Reason :
      (l : List String) (n : ℕ) (x : Account) (rest : List Account) (f : Failover Response) (m : ℕ)
      → (a : Account) → Reason l (suc n) rest f m a
      → Reason l n (x ∷ rest) (record_call x n f) m a
  other-Reason l n x rest f m a (inl h) = inl h
  other-Reason l n x rest f m a (inr (inl (i, s))) = inr (inl (inr i, s))
  other-Reason l n x rest f m a (inr (inr h)) = inr (inr (Shadowed-later n x rest m a h))

  limited-Reason :
      (l : List String) (n : ℕ) (x : Account) (rest : List Account) (f : Failover Response) (m : ℕ)
      → (a : Account) → n < m
      → Limits (try_account x n)
      → Reason (l ++ (x.provider ∷ [])) (suc n) rest f m a
      → Reason l n (x ∷ rest) (record_call x n f) m a
  limited-Reason l n x rest f m a lt lim (inl h) = elim (Bool-cases (is_limited l a)) [
    | inl e ↦ inl e
    | inr e ↦ inr (
        inr
          (n, x, lt, inl (refl, refl), lim, ground (arith, is_limited-append l x.provider a, h, e)))
  ]
  limited-Reason l n x rest f m a lt lim (inr (inl (i, s))) = inr (inl (inr i, s))
  limited-Reason l n x rest f m a lt lim (inr (inr h)) = inr (inr (Shadowed-later n x rest m a h))

  -- Every entry of the list has its reason.
  abbrev pub Reasons : List String → ℕ → List Account → Failover Response → Type 0
  Reasons l n rest f = (m : ℕ) (a : Account) → Entry n rest m a → Reason l n rest f m a

  not_success :
      (n : ℕ) (a : Account) (r : AccountResult Response RateLimitInfo)
      → try_account a n ≡ r
      → (Succeeds r → ⊥)
      → (m : ℕ) (b : Account) → m ≡ n
      → b ≡ a
      → Succeeds (try_account b m)
      → ⊥
  not_success n a r e fails m b p q s = fails (
      subst Succeeds e
        (subst (λ x. Succeeds (try_account x n)) q (subst (λ k. Succeeds (try_account b k)) p s)))

  same_pair : (m n : ℕ) (a x : Account) → m ≡ n → a ≡ x → Path (Account × ℕ) (a, m) (x, n)
  same_pair m n a x p q = cc

  reason_step :
      (l : List String) (n : ℕ) (x : Account) (rest : List Account)
      → (go : List String → Failover Response)
      → ((k : List String) → (go k).answer ≡ none → Reasons k (suc n) rest (go k))
      → (r : AccountResult Response RateLimitInfo) → try_account x n ≡ r
      → (on_result go l x r).answer ≡ none
      → Reasons l n (x ∷ rest) (record_call x n (on_result go l x r))
  reason_step l n x rest go ih (success response) e h m a entry = cc
  reason_step l n x rest go ih (rate_limited info) e h m a (inl (p, q)) =
      inr
        (inl (inl (same_pair m n a x p q), not_success n x (rate_limited info) e (λ s. s) m a p q))
  reason_step l n x rest go ih (rate_limited info) e h m a (inr i) =
      limited-Reason l n x rest (go (l ++ (x.provider ∷ []))) m a
        (omega (arith, Entry-le (suc n) rest m a i)) (subst Limits (sym e) tt)
        (ih (l ++ (x.provider ∷ [])) h m a i)
  reason_step l n x rest go ih (auth_failed status) e h m a (inl (p, q)) =
      inr
        (inl (inl (same_pair m n a x p q), not_success n x (auth_failed status) e (λ s. s) m a p q))
  reason_step l n x rest go ih (auth_failed status) e h m a (inr i) =
      other-Reason l n x rest (go l) m a (ih l h m a i)
  reason_step l n x rest go ih (failed message) e h m a (inl (p, q)) =
      inr (inl (inl (same_pair m n a x p q), not_success n x (failed message) e (λ s. s) m a p q))
  reason_step l n x rest go ih (failed message) e h m a (inr i) =
      other-Reason l n x rest (go l) m a (ih l h m a i)

  skip_case :
      (l : List String) (n : ℕ) (x : Account) (rest : List Account)
      → is_limited l x ≡ true
      → ((try_loop try_account l (suc n) rest).answer ≡ none
          → Reasons l (suc n) rest (try_loop try_account l (suc n) rest))
      → (try_loop try_account l n (x ∷ rest)).answer ≡ none
      → Reasons l n (x ∷ rest) (try_loop try_account l n (x ∷ rest))
  skip_case l n x rest e ih h m a (inl (p, q)) = inl (subst (λ b. is_limited l b ≡ true) (sym q) e)
  skip_case l n x rest e ih h m a (inr i) =
      let same = try_loop-skip try_account l n x rest e in
      subst (λ f. Reason l n (x ∷ rest) f m a) (sym same)
        (skip-Reason l n x rest (try_loop try_account l (suc n) rest) m a
          (ih (ap (λ f. f.answer) (sym same) ∙ h) m a i))

  pub try_loop-Reasons :
      (l : List String) (n : ℕ) (rest : List Account)
      → (try_loop try_account l n rest).answer ≡ none
      → Reasons l n rest (try_loop try_account l n rest)
  try_loop-Reasons l n [] h m a entry = absurd entry
  try_loop-Reasons l n (x ∷ rest) h m a entry = elim (Bool-cases (is_limited l x)) [
    | inl e ↦ skip_case l n x rest e (λ g. try_loop-Reasons l (suc n) rest g) h m a entry
    | inr e ↦
        let go = λ (k : List String). try_loop try_account k (suc n) rest in
        subst (λ f. Reason l n (x ∷ rest) f m a) (sym (try_loop-call try_account l n x rest e))
          (reason_step l n x rest go (λ k. try_loop-Reasons k (suc n) rest) (try_account x n) refl
            (ap (λ f. f.answer) (sym (try_loop-call try_account l n x rest e)) ∙ h) m a entry)
  ]
