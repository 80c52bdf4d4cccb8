-- ===== src/Router/Replies.antt =====
-- `proxy_request` of crates/proxy/src/proxy.rs: what each of its replies says of the request.
use better_ccflare_rs.Base.{
  ℕ, String, ◌≡◌, refl, sym, subst, ◌∙◌, ◌≢◌, inl, inr, true, false, Option, none, some, List, [],
  ◌∷◌, arith, Bool-cases, In, Yields,
}
use mathlib.Core.List.{Perm}
use mathlib.Core.List.Perm
use better_ccflare_rs.Base.{and_then}
use better_ccflare_rs.Base.Int.{ℤ}
use better_ccflare_rs.Account.{Account}
use better_ccflare_rs.RequestPath.{is_safe_request_path}
use better_ccflare_rs.Balancer.{SelectionMeta, SessionStrategy, Selection, select}
use better_ccflare_rs.Balancer.Pool.{Distinct}
use better_ccflare_rs.Balancer.Leading.{ids, serving}
use better_ccflare_rs.Balancer.Select.{select-Covers}
use better_ccflare_rs.Failover.{AccountResult, success, try_accounts_in_order}
use better_ccflare_rs.Router.{
  selection_meta, usage_map, by_balancer, order_accounts, not_authenticated, too_many_requests,
  invalid_path, body_too_large, database_missing, load_failed, no_accounts, none_available,
  all_failed, Reply, refused, proxied, Arrival, Routed, reply_of, serve_list, serve, route_to,
  load_and_route, proxy_request,
}
use better_ccflare_rs.Router.Serving.{same_ids, answer-GaveBy}

abbrev pub meta_of : Arrival → SelectionMeta
meta_of r = selection_meta r.auth_info r.headers

-- The accounts that may be routed to.
abbrev pub ready : (String → Option ℤ) → Arrival → ℤ → List Account → List Account
ready parse_time r now accounts = serving accounts (usage_map parse_time r.cached accounts) now

abbrev pub Entered : Arrival → Type 0
Entered r =
    (r.auth_info.is_authenticated ≡ true)
    × (r.permit ≡ true)
    × (is_safe_request_path r.path ≡ true)
    × (r.body_fits ≡ true)

module _ {Response RateLimitInfo : Type 0}
    (try_account : Account → ℕ → AccountResult Response RateLimitInfo) where
  -- An account `a` that may be routed to, with the id that was given, and the same account as it was
  -- called, maybe with a session just reset, which answered with the response.
  abbrev pub Served : List Account → Response → String → Type 0
  Served able response id =
      (a : Account) × (c : Account) × (n : ℕ) × In a able
      × (id ≡ a.id)
      × (c.id ≡ a.id)
      × (try_account c n ≡ success response)

  -- What a reply says, where `able` are the accounts that may be routed to.
  abbrev pub Says : Arrival → List Account → List Account → Reply Response → Type 0
  Says r accounts able (refused not_authenticated) = r.auth_info.is_authenticated ≡ false
  Says r accounts able (refused too_many_requests) = r.permit ≡ false
  Says r accounts able (refused invalid_path) = is_safe_request_path r.path ≡ false
  Says r accounts able (refused body_too_large) = r.body_fits ≡ false
  Says r accounts able (refused database_missing) = r.database ≡ false
  Says r accounts able (refused load_failed) = ⊥
  Says r accounts able (refused no_accounts) = accounts ≡ []
  Says r accounts able (refused none_available) = able ≡ []
  Says r accounts able (refused all_failed) = Entered r × (able ≢ [])
  Says r accounts able (proxied response id) = Entered r × Served able response id

  nothing-able : (able : List Account) → Perm (ids []) (ids able) → able ≡ []
  nothing-able [] p = refl
  nothing-able (a ∷ able) p =
      let (b, i, e) = same_ids (a ∷ able) [] (Perm.symm p) a (inl refl) in absurd i

  some-able : (x : Account) (xs able : List Account) → Perm (ids (x ∷ xs)) (ids able) → able ≢ []
  some-able x xs able p e =
      let (b, i, q) = same_ids (x ∷ xs) able p x (inl refl) in subst (In b) e i

  replied :
      (r : Arrival) (accounts able : List Account)
      → Entered r
      → (xs : List Account) → Perm (ids xs) (ids able)
      → able ≢ []
      → (o : Option (Response × String)) → (try_accounts_in_order try_account xs).answer ≡ o
      → Says r accounts able (reply_of try_account o)
  replied r accounts able entered xs p full none e = (entered, full)
  replied r accounts able entered xs p full (some (response, id)) e =
      let (c, n, i, q, h) = answer-GaveBy try_account xs response id e in
      let (a, j, same) = same_ids xs able p c i in
      (entered, (a, c, n, j, q ∙ sym same, sym same, h))

  served :
      (r : Arrival) (accounts able : List Account)
      → Entered r
      → (xs : List Account) → Perm (ids xs) (ids able)
      → Says r accounts able (serve_list try_account xs)
  served r accounts able entered [] p = nothing-able able p
  served r accounts able entered (x ∷ xs) p =
      replied r accounts able entered (x ∷ xs) p (some-able x xs able p)
        (try_accounts_in_order try_account (x ∷ xs)).answer refl

  selected :
      (r : Arrival) (accounts able : List Account)
      → Entered r
      → (o : Option Selection) → Yields (λ s. Perm (ids s.accounts) (ids able)) o
      → Yields
          (λ q. Says r accounts able q.reply)
          (and_then (and_then o (λ s. some (by_balancer s))) (λ x. some (serve try_account x)))
  selected r accounts able entered none y = absurd y
  selected r accounts able entered (some s) y = served r accounts able entered s.accounts y

  Explained : (String → Option ℤ) → Arrival → ℤ → List Account → Option (Routed Response) → Type 0
  Explained parse_time r now accounts =
      Yields (λ q. Says r accounts (ready parse_time r now accounts) q.reply)

  route_to-Explained :
      (parse_time : String → Option ℤ) (r : Arrival) (now : ℤ) (accounts : List Account)
      (s : SessionStrategy)
      → r.load_balancer ≡ some s
      → Distinct accounts
      → (meta_of r).force_account_strict ≡ false
      → Entered r
      → Explained parse_time r now accounts (route_to try_account parse_time r now accounts)
  unfolding route_to order_accounts Explained
  route_to-Explained parse_time r now [] s b d soft entered = refl
  route_to-Explained parse_time r now (a ∷ rest) s b d soft entered =
      let accounts = a ∷ rest in
      let usage = usage_map parse_time r.cached accounts in
      rw b (
        selected r accounts (ready parse_time r now accounts) entered
          (select s accounts usage (meta_of r) now)
          (select-Covers s accounts usage (meta_of r) now d soft))

  loaded-route :
      (parse_time : String → Option ℤ) (r : Arrival) (now : ℤ) (accounts : List Account)
      → r.database ≡ true
      → r.loaded ≡ some accounts
      → load_and_route try_account parse_time r now ≡ route_to try_account parse_time r now accounts
  unfolding load_and_route
  loaded-route parse_time r now accounts up l = ground (arith, up, l)

  loaded-Explained :
      (parse_time : String → Option ℤ) (r : Arrival) (now : ℤ) (accounts : List Account)
      (s : SessionStrategy)
      → r.loaded ≡ some accounts
      → r.load_balancer ≡ some s
      → Distinct accounts
      → (meta_of r).force_account_strict ≡ false
      → Entered r
      → Explained parse_time r now accounts (load_and_route try_account parse_time r now)
  unfolding load_and_route Explained
  loaded-Explained parse_time r now accounts s l b d soft entered = elim (Bool-cases r.database) [
    | inl up ↦
        subst (Explained parse_time r now accounts)
          (sym (loaded-route parse_time r now accounts up l))
          (route_to-Explained parse_time r now accounts s b d soft entered)
    | inr down ↦ rw down refl
  ]

  Entered-loads :
      (parse_time : String → Option ℤ) (r : Arrival) (now : ℤ)
      → Entered r
      → proxy_request try_account parse_time r now ≡ load_and_route try_account parse_time r now
  unfolding proxy_request
  Entered-loads parse_time r now (a, b, c, d) = ground (arith, a, b, c, d)

  -- With a load balancer and accounts of distinct ids, and unless a strict force is asked for, a
  -- request is always replied to, and the reply is true: a refusal at the entrance says what is
  -- wrong with the request or that the database or the accounts are missing; "none available" comes
  -- only when no account may be routed to, and "all failed" only when some may; and an answer is the
  -- response of an account that may be routed to and is given with its id, to a request that is
  -- authenticated, has its permit, a safe path and a body that fits.
  pub proxy_request_lem :
      (parse_time : String → Option ℤ) (r : Arrival) (now : ℤ) (accounts : List Account)
      (s : SessionStrategy)
      → r.loaded ≡ some accounts
      → r.load_balancer ≡ some s
      → Distinct accounts
      → (meta_of r).force_account_strict ≡ false
      → Yields
          (λ q. Says r accounts (ready parse_time r now accounts) q.reply)
          (proxy_request try_account parse_time r now)
  unfolding proxy_request Explained
  proxy_request_lem parse_time r now accounts s l b d soft =
      elim (Bool-cases r.auth_info.is_authenticated) [
        | inr e ↦ rw e refl
        | inl e₁ ↦ elim (Bool-cases r.permit) [
          | inr e ↦ rw (e₁, e) refl
          | inl e₂ ↦ elim (Bool-cases (is_safe_request_path r.path)) [
            | inr e ↦ rw (e₁, e₂, e) e
            | inl e₃ ↦ elim (Bool-cases r.body_fits) [
              | inr e ↦ rw (e₁, e₂, e₃, e) refl
              | inl e₄ ↦
                  subst (Explained parse_time r now accounts)
                    (sym (Entered-loads parse_time r now (e₁, e₂, e₃, e₄)))
                    (loaded-Explained parse_time r now accounts s l b d soft (e₁, e₂, e₃, e₄))
            ]
          ]
        ]
      ]
