-- ===== src/Tokens/Backoff.antt =====
-- The back-off of crates/proxy/src/token_manager.rs, and the lock that was to share a refresh.
use better_ccflare_rs.Base.{
  Option-cases, String, ◌≡◌, refl, sym, ap, subst, ◌∙◌, ◌≢◌, inl, inr, true, false, Option, none,
  some, arith, str_eq_iff, Bool-cases,
}
use better_ccflare_rs.Base.Int.{leb_ℤ, ℤ, ◌-ℤ◌, ltb_ℤ}
use better_ccflare_rs.Account.{Account}
use better_ccflare_rs.Health.{failure_ttl_ms, token_refresh_backoff_ms}
use better_ccflare_rs.Tokens.{
  TokenError, Failures, err, set_failure, on_refreshed, on_refresh_error, TokenRefreshResult,
  cleanup_interval_ms, after_lock, Answer, get_valid_access_token, cleanup_expired_failures,
  FailureRecord, TokenManager, Call, fresh, try_db_recovery, back_off, before_lock, begin_call,
}

-- A step that goes on to the lock leaves the account as it was.
abbrev Unchanged : Account → Call → Type 0
Unchanged account c = c.result ≡ none → c.account ≡ account

try_db_recovery-stops :
    (load_account : String → Option Account) (m : TokenManager) (account : Account) (now : ℤ)
    → (try_db_recovery load_account m account now).result ≢ none
unfolding try_db_recovery
try_db_recovery-stops load_account m account now h = ground arith

back_off-Unchanged :
    (load_account : String → Option Account) (m : TokenManager) (account : Account)
    → (r : FailureRecord) (now : ℤ) → Unchanged account (back_off load_account m account r now)
unfolding back_off
back_off-Unchanged load_account m account r now h = grind (arith, try_db_recovery-stops, h)

back_off-stops :
    (load_account : String → Option Account) (m : TokenManager) (account : Account)
    → (r : FailureRecord) (now : ℤ) → ltb_ℤ (now -ℤ r.timestamp) token_refresh_backoff_ms ≡ true
    → (back_off load_account m account r now).result ≢ none
unfolding back_off
back_off-stops load_account m account r now e h = grind (arith, try_db_recovery-stops, h, e)

before_lock-Unchanged :
    (load_account : String → Option Account) (m : TokenManager) (account : Account) (now : ℤ)
    → Unchanged account (before_lock load_account m account now)
unfolding before_lock
before_lock-Unchanged load_account m account now h = grind (arith, back_off-Unchanged, h)

-- What goes on to the lock has no fresh token.
pub waits_unfresh :
    (load_account : String → Option Account) (m : TokenManager) (account : Account) (now : ℤ)
    → (begin_call load_account m account now).result ≡ none
    → ((begin_call load_account m account now).account ≡ account)
      × (fresh account.access_token account.expires_at now ≡ none)
unfolding begin_call
waits_unfresh load_account m account now h = grind (arith, before_lock-Unchanged, h)

-- A call that gets past the lock asks the provider for a new token, whatever other tasks did in the
-- meantime: the test after the lock reads this call's own copy of the account.
pub waiter_refreshes :
    (load_account : String → Option Account)
    → (refresh_token : Account → String → Answer TokenRefreshResult String)
    → (others : TokenManager → TokenManager) (m : TokenManager) (account : Account) (now : ℤ)
    → (begin_call load_account m account now).result ≡ none
    → (get_valid_access_token load_account refresh_token others m account now).refreshed ≡ true
unfolding get_valid_access_token after_lock on_refreshed on_refresh_error
waiter_refreshes load_account refresh_token others m account now h =
    grind (arith, waits_unfresh load_account m account now h, h)

within_ttl : (age : ℤ) → ltb_ℤ age token_refresh_backoff_ms ≡ true → leb_ℤ age failure_ttl_ms ≡ true
within_ttl age e = ground arith

-- The clean-up keeps the records that still back off.
pub cleanup_keeps :
    (m : TokenManager) (id : String) (r : FailureRecord) (now : ℤ)
    → m.failures id ≡ some r
    → ltb_ℤ (now -ℤ r.timestamp) token_refresh_backoff_ms ≡ true
    → (cleanup_expired_failures m now).failures id ≡ some r
unfolding cleanup_expired_failures
cleanup_keeps m id r now h e =
    elim (Bool-cases (ltb_ℤ (now -ℤ m.last_cleanup) cleanup_interval_ms)) [
      | inl k ↦ rw k h
      | inr k ↦ rw k (rw h (rw (within_ttl (now -ℤ r.timestamp) e) refl))
    ]

before_lock-stops :
    (load_account : String → Option Account) (m : TokenManager) (account : Account)
    → (r : FailureRecord) (now : ℤ) → m.failures account.id ≡ some r
    → ltb_ℤ (now -ℤ r.timestamp) token_refresh_backoff_ms ≡ true
    → (before_lock load_account m account now).result ≢ none
unfolding before_lock
before_lock-stops load_account m account r now h e k =
    back_off-stops load_account (cleanup_expired_failures m now) account r now e
      (rw (cleanup_keeps m account.id r now h e, before_lock) at k)

pub begin_call-stops :
    (load_account : String → Option Account) (m : TokenManager) (account : Account)
    → (r : FailureRecord) (now : ℤ) → m.failures account.id ≡ some r
    → ltb_ℤ (now -ℤ r.timestamp) token_refresh_backoff_ms ≡ true
    → (begin_call load_account m account now).result ≢ none
unfolding begin_call
begin_call-stops load_account m account r now h e k =
    grind (arith, before_lock-stops load_account m account r now h e, k)

begin_call-refreshed :
    (load_account : String → Option Account) (m : TokenManager) (account : Account) (now : ℤ)
    → (begin_call load_account m account now).refreshed ≡ false
unfolding begin_call before_lock back_off try_db_recovery
begin_call-refreshed load_account m account now = ground arith

-- For a minute after a failed refresh of an account, no call for it asks the provider again.
pub backs_off :
    (load_account : String → Option Account)
    → (refresh_token : Account → String → Answer TokenRefreshResult String)
    → (others : TokenManager → TokenManager) (m : TokenManager) (account : Account)
    → (r : FailureRecord) (now : ℤ) → m.failures account.id ≡ some r
    → ltb_ℤ (now -ℤ r.timestamp) token_refresh_backoff_ms ≡ true
    → (get_valid_access_token load_account refresh_token others m account now).refreshed ≡ false
unfolding get_valid_access_token
backs_off load_account refresh_token others m account r now h e = grind (
  arith,
  begin_call-stops load_account m account r now h e,
  begin_call-refreshed load_account m account now,
)

pub set_failure-same :
    (f : Failures) (id : String) (r : Option FailureRecord) → set_failure f id r id ≡ r
unfolding set_failure
set_failure-same f id r = rw ((str_eq_iff id id).1 refl) refl

-- A refresh that failed leaves a record of the time.
after_lock-records :
    (refresh_token : Account → String → Answer TokenRefreshResult String) (m : TokenManager)
    → (account : Account) (now : ℤ) (e : TokenError)
    → (after_lock refresh_token m account now).refreshed ≡ true
    → (after_lock refresh_token m account now).result ≡ some (err e)
    → (after_lock refresh_token m account now).manager.failures account.id
      ≡ some (record { timestamp = now; backoff_count = 0 })
unfolding after_lock on_refreshed on_refresh_error
after_lock-records refresh_token m account now e h k = grind (
  arith,
  set_failure-same m.failures account.id (some (record { timestamp = now; backoff_count = 0 })),
  h,
  k,
)

pub waiting_call :
    (load_account : String → Option Account)
    → (refresh_token : Account → String → Answer TokenRefreshResult String)
    → (others : TokenManager → TokenManager) (m : TokenManager) (account : Account) (now : ℤ)
    → (begin_call load_account m account now).result ≡ none
    → get_valid_access_token load_account refresh_token others m account now
      ≡ after_lock refresh_token
          (others (begin_call load_account m account now).manager)
          account
          now
unfolding get_valid_access_token
waiting_call load_account refresh_token others m account now h =
    rw (h, get_valid_access_token)
      (ap
        (λ a.
          after_lock refresh_token (others (begin_call load_account m account now).manager) a now)
        (waits_unfresh load_account m account now h).0)

stopped_call :
    (load_account : String → Option Account)
    → (refresh_token : Account → String → Answer TokenRefreshResult String)
    → (others : TokenManager → TokenManager) (m : TokenManager) (account : Account) (now : ℤ)
    → (r : Answer String TokenError) → (begin_call load_account m account now).result ≡ some r
    → (get_valid_access_token load_account refresh_token others m account now).refreshed
      ≡ (begin_call load_account m account now).refreshed
unfolding get_valid_access_token
stopped_call load_account refresh_token others m account now r h =
    rw (h, get_valid_access_token) refl

pub failure_recorded :
    (load_account : String → Option Account)
    → (refresh_token : Account → String → Answer TokenRefreshResult String)
    → (others : TokenManager → TokenManager) (m : TokenManager) (account : Account) (now : ℤ)
    → (e : TokenError)
    → (get_valid_access_token load_account refresh_token others m account now).refreshed ≡ true
    → (get_valid_access_token load_account refresh_token others m account now).result ≡ some (err e)
    → (get_valid_access_token load_account refresh_token others m account now).manager.failures
        account.id
      ≡ some (record { timestamp = now; backoff_count = 0 })
unfolding get_valid_access_token
failure_recorded load_account refresh_token others m account now e h k =
    elim (Option-cases (begin_call load_account m account now).result) [
      | inl waits ↦
          let passed = waiting_call load_account refresh_token others m account now waits in
          let by_then = others (begin_call load_account m account now).manager in
          subst
            (λ c.
              c.manager.failures account.id ≡ some (record { timestamp = now; backoff_count = 0 }))
            (sym passed)
            (after_lock-records refresh_token by_then account now e
              (ap (λ c. c.refreshed) (sym passed) ∙ h) (ap (λ c. c.result) (sym passed) ∙ k))
      | inr (r, stopped) ↦
          let no_call = begin_call-refreshed load_account m account now in
          let this_call = stopped_call load_account refresh_token others m account now r stopped in
          cc
    ]
