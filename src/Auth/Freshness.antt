-- ===== src/Auth/Freshness.antt =====
-- How old an answer of the key cache of crates/proxy/src/auth.rs may be.
use better_ccflare_rs.Base.{
  Option-cases, ℕ, ◌<◌, String, ◌≡◌, refl, sym, ap, subst, ◌∙◌, ◌⊎◌, inl, inr, Bool, true, false,
  Option, none, some, List, [], ◌∷◌, arith, ltb, leb, if◌then◌else◌, Bool-cases, length, In,
}
use better_ccflare_rs.Base.Maps.{get, get-In, In-set}
use better_ccflare_rs.Auth.{KeyResult, CachedKeyResult}
use better_ccflare_rs.Auth.Keys.{
  Db, KeyCache, verify_api_key_cached, verify_api_key_sync, cached, remember, elapsed_secs, ttl_of,
  api_key_cache_max_size,
}

-- A check of a key, with the database as it is by then.
pub record Check : Type 0 where
  pub db : Db
  pub api_key : List ℕ
  pub at : ℕ

module _ (hash_for_cache : List ℕ → String) (verify_hash : List ℕ → String → Bool) where
  abbrev pub answer_of : Check → Option KeyResult
  answer_of c = verify_api_key_sync verify_hash c.db c.api_key

  -- The cache after some checks, from an empty one.
  abbrev pub run_from : KeyCache → List Check → KeyCache
  run_from cache [] = cache
  run_from cache (c ∷ checks) =
      run_from (verify_api_key_cached hash_for_cache verify_hash c.db cache c.api_key c.at).0 checks

  -- An entry is what the database answered to one of the checks, at its time.
  abbrev Logged : List Check → String × CachedKeyResult → Type 0
  Logged log e =
      (c : Check) × In c log
      × (hash_for_cache c.api_key ≡ e.0)
      × (answer_of c ≡ e.1.result)
      × (c.at ≡ e.1.verified_at)

  cached-get :
      (cache : KeyCache) (key : String) (now : ℕ) (entry : CachedKeyResult)
      → cached cache key now ≡ some entry
      → (get key cache ≡ some entry)
        × (ltb (elapsed_secs entry.verified_at now) (ttl_of entry) ≡ true)
  unfolding cached
  cached-get cache key now entry h = elim (Option-cases (get key cache)) [
    | inl q ↦ absurd (ground (arith, q, h))
    | inr (e, q) ↦ elim (Bool-cases (ltb (elapsed_secs e.verified_at now) (ttl_of e))) [
      | inl b ↦
          let same : e ≡ entry = ground (arith, q, b, h) in
          (
            q ∙ ap some same,
            subst (λ x. ltb (elapsed_secs x.verified_at now) (ttl_of x) ≡ true) same b,
          )
      | inr b ↦ absurd (ground (arith, q, b, h))
    ]
  ]

  AllLogged : List Check → KeyCache → Type 0
  AllLogged log cache = (e : String × CachedKeyResult) → In e cache → Logged log e

  In-if :
      (e : String × CachedKeyResult) (b : Bool) (cache : KeyCache)
      → In e (if b then [] else cache)
      → In e cache
  In-if e true cache i = absurd i
  In-if e false cache i = i

  remember-Logged :
      (log : List Check) (cache : KeyCache) (c : Check)
      → In c log
      → AllLogged log cache
      → AllLogged log (
          remember cache
            (hash_for_cache c.api_key)
            (record { result = answer_of c; verified_at = c.at }))
  unfolding remember AllLogged
  remember-Logged log cache c l h e i = elim (In-set _ _ e _ i) [
    | inl q ↦ (
      c,
      l,
      ap (λ x. x.0) (sym q),
      ap (λ x. x.1.result) (sym q),
      ap (λ x. x.1.verified_at) (sym q),
    )
    | inr j ↦ h e (In-if e (leb api_key_cache_max_size (length cache)) cache j)
  ]

  -- What a cached answer is: that of the database now, or one that the log has.
  abbrev pub Fresh : List Check → Check → Option KeyResult → Type 0
  Fresh log c r =
      (d : Check) × In d log
      × (hash_for_cache d.api_key ≡ hash_for_cache c.api_key)
      × (answer_of d ≡ r)
      × (elapsed_secs d.at c.at < 300)
      × (r ≡ none → elapsed_secs d.at c.at < 30)

  step-Logged :
      (log : List Check) (cache : KeyCache) (c : Check)
      → In c log
      → AllLogged log cache
      → AllLogged log (verify_api_key_cached hash_for_cache verify_hash c.db cache c.api_key c.at).0
  unfolding verify_api_key_cached
  step-Logged log cache c l h = elim (Option-cases (cached cache (hash_for_cache c.api_key) c.at)) [
    | inl q ↦ rw (q, verify_api_key_cached) (remember-Logged log cache c l h)
    | inr (e, q) ↦ rw (q, verify_api_key_cached) h
  ]

  run-Logged :
      (log : List Check) (cache : KeyCache) (checks : List Check)
      → ((c : Check) → In c checks → In c log)
      → AllLogged log cache
      → AllLogged log (run_from cache checks)
  run-Logged log cache [] i h = h
  run-Logged log cache (c ∷ checks) i h =
      run-Logged log (verify_api_key_cached hash_for_cache verify_hash c.db cache c.api_key c.at).0
        checks (λ d j. i d (inr j)) (step-Logged log cache c (i c (inl refl)) h)

  within_ttl :
      (e : CachedKeyResult) (now : ℕ)
      → ltb (elapsed_secs e.verified_at now) (ttl_of e) ≡ true
      → (elapsed_secs e.verified_at now < 300)
        × (e.result ≡ none → elapsed_secs e.verified_at now < 30)
  within_ttl e now h = elim (Option-cases e.result) [
    | inl q ↦ (ground (arith, q, h), λ z. ground (arith, q, h))
    | inr (k, q) ↦ (ground (arith, q, h), λ z. absurd (ground (arith, q, z)))
  ]

  hit :
      (log : List Check) (cache : KeyCache) (c : Check) (e : CachedKeyResult)
      → AllLogged log cache
      → cached cache (hash_for_cache c.api_key) c.at ≡ some e
      → Fresh log c e.result
  unfolding AllLogged
  hit log cache c e h q =
      let (g, t) = cached-get cache (hash_for_cache c.api_key) c.at e q in
      let (d, l, k, a, v) =
        h (hash_for_cache c.api_key, e) (get-In (hash_for_cache c.api_key) cache e g) in
      let (long, short) = within_ttl e c.at t in
      (
        d,
        l,
        k,
        a,
        subst (λ x. elapsed_secs x c.at < 300) (sym v) long,
        λ z. subst (λ x. elapsed_secs x c.at < 30) (sym v) (short z),
      )

  -- After any checks from an empty cache, the answer to a key is what the database says now, or what it
  -- said to an earlier check of a key with the same hash: less than 300 seconds ago, and less than 30
  -- if the answer turns the key down.
  pub cached_answer :
      (checks : List Check) (c : Check) (r : Option KeyResult)
      → (verify_api_key_cached hash_for_cache verify_hash c.db
          (run_from [] checks)
          c.api_key
          c.at).1
        ≡ r
      → (answer_of c ≡ r) ⊎ Fresh checks c r
  unfolding verify_api_key_cached AllLogged
  cached_answer checks c r h =
      let cache : KeyCache = run_from [] checks in
      elim (Option-cases (cached cache (hash_for_cache c.api_key) c.at)) [
        | inl q ↦ inl (ground (arith, q, h))
        | inr (e, q) ↦ inr (
            subst (Fresh checks c) (ground (arith, q, h))
              (hit checks cache c e (run-Logged checks [] checks (λ d j. j) (λ d j. absurd j)) q))
      ]
