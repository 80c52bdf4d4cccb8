-- ===== src/Router/Serving.antt =====
-- `proxy_request` of crates/proxy/src/proxy.rs: who serves a request, and why one is refused.
use mathlib.Core.List.{Perm, Permᴰ}
use std.Logic.{∥∥₁_elim}
use mathlib.Core.Bool.{Bool-set}
use better_ccflare_rs.Base.{
  ℕ, zero, suc, min, String, ◌≡◌, refl, sym, ap, subst, ◌∙◌, inl, inr, Bool, some, List, [], ◌∷◌,
  ◌++◌, arith, str_eq, str_eq_iff, Bool-cases, length, take, any, In, All, All-In, All-of_In,
}
use better_ccflare_rs.Base.{In-any, any-In}
use better_ccflare_rs.Account.{Account}
use better_ccflare_rs.Balancer.Leading.{ids}
use better_ccflare_rs.Failover.{
  AccountResult, success, rate_limited, auth_failed, failed, Failover, try_accounts_in_order,
  try_loop, is_limited, on_result, record_call, max_failover_attempts,
}
use better_ccflare_rs.Failover.Order.{try_loop-skip, try_loop-call}
use better_ccflare_rs.Failover.Outcome.{AnswerOf, answer_lem}

any-map : (p : String → Bool) (xs : List Account) → any p (ids xs) ≡ any (λ a. p a.id) xs
any-map p [] = refl
any-map p (x ∷ xs) = rw (any-map p xs) refl

any-permᴰ : (p : String → Bool) {xs ys : List String} → Permᴰ xs ys → any p xs ≡ any p ys
any-permᴰ p Permᴰ.nil = refl
any-permᴰ p (Permᴰ.cons e d) = ground (arith, ap p e, any-permᴰ p d)
any-permᴰ p (Permᴰ.swap e f) = ground (arith, ap p e, ap p f)
any-permᴰ p (Permᴰ.trans d e) = any-permᴰ p d ∙ any-permᴰ p e

any-perm : (p : String → Bool) {xs ys : List String} → Perm xs ys → any p xs ≡ any p ys
any-perm p {xs} {ys} d = ∥∥₁_elim d (Bool-set (any p xs) (any p ys)) (any-permᴰ p)

pub same_ids :
    (xs ys : List Account)
    → Perm (ids xs) (ids ys)
    → (c : Account) → In c xs
    → (a : Account) × In a ys × (a.id ≡ c.id)
same_ids xs ys d c i =
    let p = λ (s : String). str_eq s c.id in
    let here = In-any (λ a. p a.id) c xs i ((str_eq_iff c.id c.id).1 refl) in
    let there = sym (any-map p ys) ∙ sym (any-perm p d) ∙ any-map p xs ∙ here in
    let (a, j, e) = any-In (λ a. p a.id) ys there in (a, j, (str_eq_iff a.id c.id).0 e)

take-In : (n : ℕ) (xs : List Account) (a : Account) → In a (take n xs) → In a xs
take-In zero xs a i = absurd i
take-In (suc n) [] a i = absurd i
take-In (suc n) (x ∷ xs) a (inl e) = inl e
take-In (suc n) (x ∷ xs) a (inr i) = inr (take-In n xs a i)

module _ {Response RateLimitInfo : Type 0}
    (try_account : Account → ℕ → AccountResult Response RateLimitInfo) where
  -- The loop calls accounts of its list only.
  abbrev Within : List Account → Failover Response → Type 0
  Within xs f = All (λ y. In y.0 xs) f.tried

  Within-cons :
      (x : Account) (xs : List Account) (f : Failover Response) → Within xs f → Within (x ∷ xs) f
  Within-cons x xs f h = All-of_In _ f.tried (λ y i. inr (All-In (λ z. In z.0 xs) y f.tried h i))

  Within-step :
      (l : List String) (n : ℕ) (x : Account) (xs : List Account)
      → (go : List String → Failover Response) → ((k : List String) → Within xs (go k))
      → (r : AccountResult Response RateLimitInfo)
      → Within (x ∷ xs) (record_call x n (on_result go l x r))
  Within-step l n x xs go ih (success response) = (inl refl, tt)
  Within-step l n x xs go ih (rate_limited info) =
      let k = l ++ (x.provider ∷ []) in (inl refl, Within-cons x xs (go k) (ih k))
  Within-step l n x xs go ih (auth_failed status) = (inl refl, Within-cons x xs (go l) (ih l))
  Within-step l n x xs go ih (failed message) = (inl refl, Within-cons x xs (go l) (ih l))

  try_loop-Within :
      (l : List String) (n : ℕ) (xs : List Account) → Within xs (try_loop try_account l n xs)
  unfolding try_loop
  try_loop-Within l n [] = tt
  try_loop-Within l n (x ∷ xs) = elim (Bool-cases (is_limited l x)) [
    | inl e ↦
        subst (Within (x ∷ xs)) (sym (try_loop-skip try_account l n x xs e))
          (Within-cons x xs (try_loop try_account l (suc n) xs) (try_loop-Within l (suc n) xs))
    | inr e ↦ subst (Within (x ∷ xs)) (sym (try_loop-call try_account l n x xs e)) (
        Within-step l n x xs (λ k. try_loop try_account k (suc n) xs)
          (λ k. try_loop-Within k (suc n) xs) (try_account x n))
  ]

  -- An account of the list gave the response when it was called.
  abbrev pub GaveBy : List Account → Response → String → Type 0
  GaveBy xs response id =
      (c : Account) × (n : ℕ) × In c xs × (id ≡ c.id) × (try_account c n ≡ success response)

  gave :
      (xs : List Account) (tried : List (Account × ℕ)) (response : Response) (id : String)
      → All (λ y. In y.0 xs) tried
      → AnswerOf try_account tried response id
      → GaveBy xs response id
  gave xs [] response id w h = absurd h
  gave xs ((a, n) ∷ []) response id w h = (a, n, w.0, h.1, h.0)
  gave xs (x ∷ y ∷ ys) response id w h = gave xs (y ∷ ys) response id w.1 h

  pub answer-GaveBy :
      (xs : List Account) (response : Response) (id : String)
      → (try_accounts_in_order try_account xs).answer ≡ some (response, id)
      → GaveBy xs response id
  unfolding try_accounts_in_order
  answer-GaveBy xs response id h =
      let n = min (length xs) max_failover_attempts in
      let (c, k, i, e, q) =
        gave (take n xs) (try_accounts_in_order try_account xs).tried response id
          (try_loop-Within [] 0 (take n xs)) (answer_lem try_account xs response id h) in
      (c, k, take-In n xs c i, e, q)
