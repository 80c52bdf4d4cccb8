-- ===== src/Polling/Rounds.antt =====
-- How many rounds a poll of crates/providers/src/usage_polling.rs takes.
use better_ccflare_rs.Base.{
  or_else, Option-cases, ℕ, zero, suc, ◌+◌, String, ◌≡◌, refl, sym, ap, ◌∙◌, ◌≢◌, ◌⊎◌, inl, inr,
  ◌||◌, none, some, List, [], ◌∷◌, ◌++◌, arith, str_eq, Bool-cases, length, length-append,
}
use better_ccflare_rs.Base.Int.{ℤ}
use better_ccflare_rs.Polling.Service.{
  Upstream, PollableAccount, UsageCache, Told, RefreshedToken, RefreshAnswer, renewed,
  permanently_revoked, transient, AnthropicUsageResult, unauthorized, ok, rate_limited, error,
  oauth_loop, refresh, attempts, poll_single_account, persist_refreshed_token, max_retries,
  is_blank,
}

fetch-cases : (a : AnthropicUsageResult) → (a ≡ unauthorized) ⊎ (a ≢ unauthorized)
fetch-cases unauthorized = inl refl
fetch-cases (ok d) = inr (λ h. cc)
fetch-cases (rate_limited n) = inr (λ h. cc)
fetch-cases error = inr (λ h. cc)

refresh-cases :
    (a : RefreshAnswer)
    → ((t : RefreshedToken) × (a ≡ renewed t)) ⊎ ((a ≡ transient) ⊎ (a ≡ permanently_revoked))
refresh-cases (renewed t) = inl (t, refl)
refresh-cases transient = inr (inl refl)
refresh-cases permanently_revoked = inr (inr refl)

module _ {W : Type 0} (up : Upstream W) where
  -- The endpoint turns every token down and each refresh succeeds.
  abbrev pub AlwaysUnauthorized : Type 0
  AlwaysUnauthorized =
      (w : W) (token : String) → (up.fetch_anthropic_usage w token).1 ≡ unauthorized

  abbrev pub AlwaysRenewed : Type 0
  AlwaysRenewed =
      (w : W) (rt cid : String)
      → (t : RefreshedToken) × ((up.refresh_oauth_token w rt cid).1 ≡ renewed t)

  -- A round that renews the token.
  round-renewed :
      (rounds : ℕ) (account : PollableAccount) (rt cid : String) (t : RefreshedToken) (now : ℤ)
      → (w : W) (cache : UsageCache) (told : List Told) (token : String)
      → account.refresh_token ≡ some rt
      → account.client_id ≡ some cid
      → (up.fetch_anthropic_usage w token).1 ≡ unauthorized
      → (up.refresh_oauth_token (up.fetch_anthropic_usage w token).0 rt cid).1 ≡ renewed t
      → oauth_loop up (suc rounds) account now w cache told token
        ≡ oauth_loop up rounds account now
            (up.refresh_oauth_token (up.fetch_anthropic_usage w token).0 rt cid).0
            cache
            (told ++ (persist_refreshed_token account.id t ∷ []))
            t.access_token
  unfolding oauth_loop refresh
  round-renewed rounds account rt cid t now w cache told token a b u q = ground (arith, a, b, u, q)

  -- While the usage endpoint answers 401 and the refresh succeeds, the loop never ends: after any
  -- number of rounds it is still running, and has stored a new token in each.
  pub polls_forever :
      AlwaysUnauthorized
      → AlwaysRenewed
      → (rounds : ℕ) (account : PollableAccount) (rt cid : String) → account.refresh_token ≡ some rt
      → account.client_id ≡ some cid
      → (now : ℤ) (w : W) (cache : UsageCache) (told : List Told) (token : String)
      → ((oauth_loop up rounds account now w cache told token).result ≡ none)
        × (length (oauth_loop up rounds account now w cache told token).told ≡ length told + rounds)
  unfolding oauth_loop
  polls_forever u r zero account rt cid a b now w cache told token = (refl, omega arith)
  polls_forever u r (suc rounds) account rt cid a b now w cache told token =
      let after = (up.fetch_anthropic_usage w token).0 in
      let (t, q) = r after rt cid in
      let rest =
        polls_forever u r rounds account rt cid a b now (up.refresh_oauth_token after rt cid).0
          cache (told ++ (persist_refreshed_token account.id t ∷ [])) t.access_token in
      let step = round-renewed rounds account rt cid t now w cache told token a b (u w token) q in
      (
        ap (λ p. p.result) step ∙ rest.0,
        ap (λ p. length p.told) step
            ∙ rest.1
            ∙ omega (arith, length-append told (persist_refreshed_token account.id t ∷ [])),
      )

  -- A token that was just renewed is not turned down.
  abbrev pub RenewedAccepted : Type 0
  RenewedAccepted =
      (w : W) (rt cid : String) (t : RefreshedToken)
      → (up.refresh_oauth_token w rt cid).1 ≡ renewed t
      → (up.fetch_anthropic_usage (up.refresh_oauth_token w rt cid).0 t.access_token).1
        ≢ unauthorized

  accepted-stops :
      (rounds : ℕ) (account : PollableAccount) (now : ℤ) (w : W) (cache : UsageCache)
      → (told : List Told) (token : String) → (up.fetch_anthropic_usage w token).1 ≢ unauthorized
      → (oauth_loop up (suc rounds) account now w cache told token).result ≢ none
  unfolding oauth_loop
  accepted-stops rounds account now w cache told token h k = ground (arith, h, k)

  renewed-stops :
      RenewedAccepted
      → (rounds : ℕ) (account : PollableAccount) (rt cid : String) (now : ℤ) (w : W)
      → (cache : UsageCache) (told : List Told) (token : String) → account.refresh_token ≡ some rt
      → account.client_id ≡ some cid
      → (up.fetch_anthropic_usage w token).1 ≡ unauthorized
      → (oauth_loop up (suc (suc rounds)) account now w cache told token).result ≢ none
  unfolding oauth_loop refresh
  renewed-stops r rounds account rt cid now w cache told token a b u k =
      let after : W = (up.fetch_anthropic_usage w token).0 in
      elim (refresh-cases (up.refresh_oauth_token after rt cid).1) [
        | inl (t, q) ↦
            accepted-stops rounds account now (up.refresh_oauth_token after rt cid).0 cache
              (told ++ (persist_refreshed_token account.id t ∷ [])) t.access_token
              (r after rt cid t q)
              (ap (λ p. p.result)
                  (sym (round-renewed (suc rounds) account rt cid t now w cache told token a b u q))
                ∙ k)
        | inr (inl q) ↦ ground (arith, a, b, u, q, k)
        | inr (inr q) ↦ ground (arith, a, b, u, q, k)
      ]

  oauth_loop-stops :
      RenewedAccepted
      → (rounds : ℕ) (account : PollableAccount) (now : ℤ) (w : W) (cache : UsageCache)
      → (told : List Told) (token : String)
      → (oauth_loop up (suc (suc rounds)) account now w cache told token).result ≢ none
  unfolding oauth_loop refresh
  oauth_loop-stops r rounds account now w cache told token k =
      elim (fetch-cases (up.fetch_anthropic_usage w token).1) [
        | inr h ↦ accepted-stops (suc rounds) account now w cache told token h k
        | inl u ↦ elim (Option-cases account.refresh_token) [
          | inl a ↦ ground (arith, u, a, k)
          | inr (rt, a) ↦ elim (Option-cases account.client_id) [
            | inl b ↦ ground (arith, u, a, b, k)
            | inr (cid, b) ↦ renewed-stops r rounds account rt cid now w cache told token a b u k
          ]
        ]
      ]

  attempts-stops :
      (left : ℕ) (account : PollableAccount) (now : ℤ) (w : W) (cache : UsageCache) (token : String)
      → (attempts up left account now w cache token).result ≢ none
  unfolding attempts
  attempts-stops zero account now w cache token k = cc
  attempts-stops (suc left) account now w cache token k =
      let fetched = up.fetch_usage_for_provider w account.provider token account.custom_endpoint in
      elim (Option-cases fetched.1) [
        | inl q ↦ attempts-stops left account now fetched.0 cache token (ground (arith, q, k))
        | inr (d, q) ↦ ground (arith, q, k)
      ]

  -- Where the usage endpoint accepts a token that was just renewed, two rounds are enough: the poll of
  -- an account ends, whatever the provider.
  pub two_rounds :
      RenewedAccepted
      → (rounds : ℕ) (account : PollableAccount) (now : ℤ) (w : W) (cache : UsageCache)
      → (poll_single_account up (suc (suc rounds)) account now w cache).result ≢ none
  unfolding poll_single_account
  two_rounds r rounds account now w cache k =
      elim (Option-cases (or_else account.access_token account.api_key)) [
        | inl q ↦ ground (arith, q, k)
        | inr (token, q) ↦ elim (Bool-cases (is_blank token)) [
          | inl b ↦ ground (arith, q, b, k)
          | inr b ↦
              elim (Bool-cases
                (str_eq account.provider "claude-oauth" || str_eq account.provider "anthropic")) [
                  | inl o ↦
                      oauth_loop-stops r rounds account now w cache [] token
                        (ground (arith, q, b, o, k))
                  | inr o ↦
                      attempts-stops max_retries account now w cache token
                        (ground (arith, q, b, o, k))
                ]
        ]
      ]
