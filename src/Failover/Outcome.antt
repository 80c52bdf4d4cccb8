-- ===== src/Failover/Outcome.antt =====
-- The failover loop of crates/proxy/src/handler.rs: its bounds and its answers.
use better_ccflare_rs.Base.{
  ℕ, zero, suc, ◌+◌, ◌<◌, min, String, ◌≡◌, refl, sym, subst, ◌∙◌, ◌⊎◌, inl, inr, true, none, some,
  List, [], ◌∷◌, ◌++◌, arith, str_eq, Bool-cases, length, take, get_elem?, Pairs, length-take,
}
use better_ccflare_rs.Account.{Account}
use better_ccflare_rs.Failover.{
  AccountResult, success, rate_limited, auth_failed, failed, Failover, is_limited, try_loop,
  try_accounts_in_order, max_failover_attempts, on_result, record_call,
}
use better_ccflare_rs.Failover.Order.{try_loop-Calls, Limits, Apart, try_loop-skip, try_loop-call}
use better_ccflare_rs.Failover.Reasons.{Entry, Called, Reason, try_loop-Reasons, Entry-le}

module _ {A : Type 0} where
  get_elem?-take : (n : ℕ) (xs : List A) (i : ℕ) → i < n → get_elem? (take n xs) i ≡ get_elem? xs i
  get_elem?-take zero xs i h = absurd (omega arith)
  get_elem?-take (suc n) [] i h = refl
  get_elem?-take (suc n) (x ∷ xs) zero h = refl
  get_elem?-take (suc n) (x ∷ xs) (suc i) h = get_elem?-take n xs i (omega arith)

  get_elem?-bound : (xs : List A) (i : ℕ) (a : A) → get_elem? xs i ≡ some a → i < length xs
  get_elem?-bound [] i a h = cc
  get_elem?-bound (x ∷ xs) zero a h = omega arith
  get_elem?-bound (x ∷ xs) (suc i) a h = omega (arith, get_elem?-bound xs i a h)

  take-get_elem? :
      (n : ℕ) (xs : List A) (i : ℕ) (a : A)
      → get_elem? (take n xs) i ≡ some a
      → get_elem? xs i ≡ some a
  take-get_elem? n xs i a h =
      sym
        (get_elem?-take n xs i (omega (arith, length-take n xs, get_elem?-bound (take n xs) i a h)))
      ∙ h

module _ {Response RateLimitInfo : Type 0}
    (try_account : Account → ℕ → AccountResult Response RateLimitInfo) where
  Entry-of_get_elem? :
      (n : ℕ) (xs : List Account) (i : ℕ) (a : Account)
      → get_elem? xs i ≡ some a
      → Entry try_account n xs (n + i) a
  Entry-of_get_elem? n [] i a h = cc
  Entry-of_get_elem? n (x ∷ xs) zero a h = inl (omega arith, cc)
  Entry-of_get_elem? n (x ∷ xs) (suc i) a h =
      let same : suc n + i ≡ n + suc i = omega arith in
      inr (subst (λ m. Entry try_account (suc n) xs m a) same (Entry-of_get_elem? (suc n) xs i a h))

  get_elem?-of_Entry :
      (n : ℕ) (xs : List Account) (m i : ℕ) (a : Account)
      → Entry try_account n xs m a
      → n + i ≡ m
      → get_elem? xs i ≡ some a
  get_elem?-of_Entry n [] m i a h e = absurd h
  get_elem?-of_Entry n (x ∷ xs) m zero a (inl h) e = cc
  get_elem?-of_Entry n (x ∷ xs) m (suc i) a (inl h) e = absurd (omega (arith, h.0))
  get_elem?-of_Entry n (x ∷ xs) m zero a (inr h) e =
      absurd (omega (arith, Entry-le try_account (suc n) xs m a h))
  get_elem?-of_Entry n (x ∷ xs) m (suc i) a (inr h) e =
      get_elem?-of_Entry (suc n) xs m i a h (omega arith)

  -- An account before place `i`, of the provider of `a`, answered that it is rate-limited.
  abbrev pub PassedOver : List Account → ℕ → Account → Type 0
  PassedOver accounts i a =
      (k : ℕ) × (b : Account) × (k < i)
      × (get_elem? accounts k ≡ some b)
      × Limits (try_account b k)
      × (str_eq b.provider a.provider ≡ true)

  shown :
      (n : ℕ) (accounts : List Account) (f : Failover Response) (i : ℕ) (a : Account)
      → Reason try_account [] 0 (take n accounts) f i a
      → Called try_account f i a ⊎ PassedOver accounts i a
  unfolding is_limited
  shown n accounts f i a (inl e) = cc
  shown n accounts f i a (inr (inl c)) = inl c
  shown n accounts f i a (inr (inr (k, b, lt, entry, lim, e))) = inr (
    k,
    b,
    lt,
    take-get_elem? n accounts k b
        (get_elem?-of_Entry 0 (take n accounts) k k b entry (omega arith)),
    lim,
    e,
  )

  -- The loop gives up only when each of the first five accounts of the list, at its place `i`, was
  -- called as attempt `i` and did not succeed, or was passed over because an account before it, of
  -- the same provider, had answered that it is rate-limited.
  pub gives_up :
      (accounts : List Account)
      → (try_accounts_in_order try_account accounts).answer ≡ none
      → (i : ℕ) (a : Account) → i < max_failover_attempts
      → get_elem? accounts i ≡ some a
      → Called try_account (try_accounts_in_order try_account accounts) i a
        ⊎ PassedOver accounts i a
  unfolding try_accounts_in_order
  gives_up accounts h i a lt at_i =
      let n = min (length accounts) max_failover_attempts in
      let below : i < n = omega (arith, get_elem?-bound accounts i a at_i) in
      let start : 0 + i ≡ i = omega arith in
      let entry =
        subst (λ m. Entry try_account 0 (take n accounts) m a) start
          (Entry-of_get_elem? 0 (take n accounts) i a (get_elem?-take n accounts i below ∙ at_i)) in
      shown n accounts (try_loop try_account [] 0 (take n accounts)) i a
        (try_loop-Reasons try_account [] 0 (take n accounts) h i a entry)

  -- No account is called after one of its own provider answered that it is rate-limited.
  pub tried-Apart :
      (accounts : List Account)
      → Pairs (Apart try_account) (try_accounts_in_order try_account accounts).tried
  unfolding try_accounts_in_order
  tried-Apart accounts =
      (try_loop-Calls try_account [] 0
        (take (min (length accounts) max_failover_attempts) accounts)).1

  -- An answer is the response of the last call, with the id of its account.
  abbrev pub AnswerOf : List (Account × ℕ) → Response → String → Type 0
  AnswerOf [] response id = ⊥
  AnswerOf ((a, n) ∷ []) response id = (try_account a n ≡ success response) × (id ≡ a.id)
  AnswerOf (x ∷ y ∷ ys) response id = AnswerOf (y ∷ ys) response id

  AnswerOf-cons :
      (x : Account × ℕ) (ys : List (Account × ℕ)) (response : Response) (id : String)
      → AnswerOf ys response id
      → AnswerOf (x ∷ ys) response id
  AnswerOf-cons x [] response id h = absurd h
  AnswerOf-cons x (y ∷ ys) response id h = h

  Answered : Failover Response → Type 0
  Answered f =
      (response : Response) (id : String)
      → f.answer ≡ some (response, id)
      → AnswerOf f.tried response id

  answer_step :
      (l : List String) (n : ℕ) (x : Account) (go : List String → Failover Response)
      → ((k : List String) → Answered (go k))
      → (r : AccountResult Response RateLimitInfo) → try_account x n ≡ r
      → Answered (record_call x n (on_result go l x r))
  unfolding Answered
  answer_step l n x go ih (success response) e r id h = (ground (arith, e, h), ground (arith, h))
  answer_step l n x go ih (rate_limited info) e r id h =
      let f = go (l ++ (x.provider ∷ [])) in
      AnswerOf-cons (x, n) f.tried r id (ih (l ++ (x.provider ∷ [])) r id h)
  answer_step l n x go ih (auth_failed status) e r id h =
      AnswerOf-cons (x, n) (go l).tried r id (ih l r id h)
  answer_step l n x go ih (failed message) e r id h =
      AnswerOf-cons (x, n) (go l).tried r id (ih l r id h)

  Answered-nil : (l : List String) (n : ℕ) → Answered (try_loop try_account l n [])
  unfolding Answered try_loop
  Answered-nil l n response id h = cc

  try_loop-Answered :
      (l : List String) (n : ℕ) (rest : List Account) → Answered (try_loop try_account l n rest)
  try_loop-Answered l n [] = Answered-nil l n
  try_loop-Answered l n (x ∷ rest) = elim (Bool-cases (is_limited l x)) [
    | inl e ↦
        subst Answered (sym (try_loop-skip try_account l n x rest e))
          (try_loop-Answered l (suc n) rest)
    | inr e ↦ subst Answered (sym (try_loop-call try_account l n x rest e)) (
        answer_step l n x (λ k. try_loop try_account k (suc n) rest)
          (λ k. try_loop-Answered k (suc n) rest) (try_account x n) refl)
  ]

  -- An answer is the response of the last account that was called, which succeeded, and its id.
  pub answer_lem :
      (accounts : List Account) (response : Response) (id : String)
      → (try_accounts_in_order try_account accounts).answer ≡ some (response, id)
      → AnswerOf (try_accounts_in_order try_account accounts).tried response id
  unfolding try_accounts_in_order Answered
  answer_lem accounts =
      try_loop-Answered [] 0 (take (min (length accounts) max_failover_attempts) accounts)
