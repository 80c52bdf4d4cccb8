-- ===== src/Tokens/Minute.antt =====
-- The minute after a failed refresh, crates/proxy/src/token_manager.rs, over any calls that follow.
use better_ccflare_rs.Base.{
  ℕ, ◌+◌, String, ◌≡◌, refl, sym, ap, subst, ◌∙◌, ◌⊎◌, inl, inr, true, false, Option, none, some,
  List, [], ◌∷◌, arith, str_eq, str_eq_iff, leb, Bool-cases, All, ◌^◌,
}
use better_ccflare_rs.Base.{◌%◌, ◌^◌, and_then, Option-cases}
use better_ccflare_rs.Base.Int.{ℤ, ◌-ℤ◌, ltb_ℤ}
use better_ccflare_rs.Account.{Account}
use better_ccflare_rs.Health.{max_backoff_retries, token_refresh_backoff_ms}
use better_ccflare_rs.Tokens.{
  fresh, ok, TokenError, Failures, err, set_failure, on_refreshed, on_refresh_error,
  TokenRefreshResult, after_lock, Answer, get_valid_access_token, cleanup_expired_failures,
  FailureRecord, TokenManager, Call, try_db_recovery, back_off, before_lock, begin_call, recovered,
}
use better_ccflare_rs.Tokens.Backoff.{
  waits_unfresh, backs_off, begin_call-stops, cleanup_keeps, failure_recorded, set_failure-same,
}

-- A later call: what the database and the provider say by then, the copy of the account it works on,
-- and its time.
pub record Later : Type 0 where
  pub load_account : String → Option Account
  pub refresh_token : Account → String → Answer TokenRefreshResult String
  pub copy : Account
  pub at : ℤ

abbrev pub call_at : TokenManager → Later → Call
call_at m c = get_valid_access_token c.load_account c.refresh_token (λ n. n) m c.copy c.at

-- Calls one after another, each with what it left behind.
abbrev pub calls_from : TokenManager → List Later → List (Later × Call)
calls_from m [] = []
calls_from m (c ∷ cs) = (c, call_at m c) ∷ calls_from (call_at m c).manager cs

-- The database holds no other fresh token for the call to recover.
abbrev pub NothingNewer : Later → Type 0
NothingNewer c = and_then (c.load_account c.copy.id) (λ db. recovered c.copy db c.at) ≡ none

-- Within a minute of `t`, and with nothing to recover if the call is for the account `id`.
abbrev pub Within : String → ℤ → Later → Type 0
Within id t c =
    (ltb_ℤ (c.at -ℤ t) token_refresh_backoff_ms ≡ true)
    × ((str_eq id c.copy.id ≡ false) ⊎ NothingNewer c)

-- The failure of the account is still on record.
abbrev Kept : String → ℤ → TokenManager → Type 0
Kept id t m = (n : ℕ) × (m.failures id ≡ some (record { timestamp = t; backoff_count = n }))

set_other :
    (f : Failures) (k id : String) (r : Option FailureRecord)
    → str_eq id k ≡ false
    → set_failure f k r id ≡ f id
unfolding set_failure
set_other f k id r e = rw e refl

try_db_recovery-other :
    (load_account : String → Option Account) (m : TokenManager) (a : Account) (now : ℤ)
    (id : String)
    → str_eq id a.id ≡ false
    → (try_db_recovery load_account m a now).manager.failures id ≡ m.failures id
unfolding try_db_recovery
try_db_recovery-other load_account m a now id e =
    ground (arith, set_other m.failures a.id id none e)

back_off-other :
    (load_account : String → Option Account) (m : TokenManager) (a : Account) (r : FailureRecord)
    (now : ℤ) (id : String)
    → str_eq id a.id ≡ false
    → (back_off load_account m a r now).manager.failures id ≡ m.failures id
unfolding back_off
back_off-other load_account m a r now id e =
    let count = (r.backoff_count + 1) % 2 ^ 32 in
    let counted : TokenManager = record m {
      failures = set_failure m.failures a.id (some (record r { backoff_count = count }));
    } in
    let kept = set_other m.failures a.id id (some (record r { backoff_count = count })) e in
    elim (Bool-cases (ltb_ℤ (now -ℤ r.timestamp) token_refresh_backoff_ms)) [
      | inr late ↦ rw late (set_other m.failures a.id id none e)
      | inl soon ↦ elim (Bool-cases (leb max_backoff_retries count)) [
        | inl many ↦ rw (soon, many) (try_db_recovery-other load_account counted a now id e ∙ kept)
        | inr few ↦ rw (soon, few) kept
      ]
    ]

before_lock-other :
    (load_account : String → Option Account) (m : TokenManager) (a : Account) (now : ℤ)
    (id : String)
    → str_eq id a.id ≡ false
    → (before_lock load_account m a now).manager.failures id
      ≡ (cleanup_expired_failures m now).failures id
unfolding before_lock
before_lock-other load_account m a now id e =
    let cleaned = cleanup_expired_failures m now in
    elim (Option-cases (cleaned.failures a.id)) [
      | inl q ↦ rw (q, before_lock) refl
      | inr (r, q) ↦ rw (q, before_lock) (back_off-other load_account cleaned a r now id e)
    ]

after_lock-other :
    (refresh_token : Account → String → Answer TokenRefreshResult String) (m : TokenManager)
    (a : Account) (now : ℤ) (id : String)
    → str_eq id a.id ≡ false
    → (after_lock refresh_token m a now).manager.failures id ≡ m.failures id
unfolding after_lock on_refreshed on_refresh_error
after_lock-other refresh_token m a now id e =
    elim (Option-cases (fresh a.access_token a.expires_at now)) [
      | inr (t, q) ↦ rw (q, after_lock) refl
      | inl q ↦ rw (q, after_lock) (after (refresh_token a m.client_id))
    ]
  where
    after :
        (r : Answer TokenRefreshResult String)
        → Path
            (Option FailureRecord)
            ((elim r as (λ x. Call) [
              | ok x ↦ on_refreshed m a x
              | err message ↦ on_refresh_error m a message now
            ]).manager.failures
              id)
            (m.failures id)
    after (ok x) = set_other m.failures a.id id none e
    after (err message) =
        set_other m.failures a.id id (some (record { timestamp = now; backoff_count = 0 })) e

begin_call-holds :
    (P : Failures → Type 0) (load_account : String → Option Account) (m : TokenManager)
    → (a : Account) (now : ℤ) → P m.failures
    → P (before_lock load_account m a now).manager.failures
    → P (begin_call load_account m a now).manager.failures
unfolding begin_call
begin_call-holds P load_account m a now p q = ground (arith, p, q)

get_valid_access_token-holds :
    (P : Failures → Type 0) (m : TokenManager) (c : Later)
    → P (begin_call c.load_account m c.copy c.at).manager.failures
    → ((begin_call c.load_account m c.copy c.at).result ≡ none
        → P
            (after_lock c.refresh_token
              (begin_call c.load_account m c.copy c.at).manager
              (begin_call c.load_account m c.copy c.at).account
              c.at).manager.failures)
    → P (call_at m c).manager.failures
unfolding get_valid_access_token
get_valid_access_token-holds P m c p q =
    elim (Option-cases (begin_call c.load_account m c.copy c.at).result) [
      | inr (r, e) ↦ rw (e, get_valid_access_token) p
      | inl e ↦ rw (e, get_valid_access_token) (q e)
    ]

-- A call for another account leaves the record.
other_keeps :
    (id : String) (t : ℤ) (m : TokenManager) (c : Later)
    → ltb_ℤ (c.at -ℤ t) token_refresh_backoff_ms ≡ true
    → str_eq id c.copy.id ≡ false
    → Kept id t m
    → Kept id t (call_at m c).manager
other_keeps id t m c soon e (n, k) =
    let held : Failures → Type 0 = λ f. f id ≡ some (record { timestamp = t; backoff_count = n }) in
    let begun = (begin_call c.load_account m c.copy c.at).manager in
    let cleaned = cleanup_keeps m id (record { timestamp = t; backoff_count = n }) c.at k soon in
    let first =
      begin_call-holds held c.load_account m c.copy c.at k
        (before_lock-other c.load_account m c.copy c.at id e ∙ cleaned) in
    (
      n,
      get_valid_access_token-holds held m c first (λ waits.
          let same = (waits_unfresh c.load_account m c.copy c.at waits).0 in
          after_lock-other c.refresh_token begun (begin_call c.load_account m c.copy c.at).account
            c.at id (ap (λ a. str_eq id a.id) same ∙ e)
          ∙ first),
    )

try_db_recovery-nothing :
    (load_account : String → Option Account) (m : TokenManager) (a : Account) (now : ℤ)
    → and_then (load_account a.id) (λ db. recovered a db now) ≡ none
    → (try_db_recovery load_account m a now).manager ≡ m
unfolding try_db_recovery
try_db_recovery-nothing load_account m a now h = elim (Option-cases (load_account a.id)) [
  | inl q ↦ rw (q, try_db_recovery) refl
  | inr (db, q) ↦
      let none_newer : recovered a db now ≡ none = rw q at h in
      rw (q, try_db_recovery) (rw none_newer refl)
]

back_off-same :
    (load_account : String → Option Account) (m : TokenManager) (a : Account) (r : FailureRecord)
    (now : ℤ)
    → ltb_ℤ (now -ℤ r.timestamp) token_refresh_backoff_ms ≡ true
    → and_then (load_account a.id) (λ db. recovered a db now) ≡ none
    → (back_off load_account m a r now).manager.failures a.id
      ≡ some (record r { backoff_count = (r.backoff_count + 1) % 2 ^ 32 })
unfolding back_off
back_off-same load_account m a r now soon h =
    let count = (r.backoff_count + 1) % 2 ^ 32 in
    let counted : TokenManager = record m {
      failures = set_failure m.failures a.id (some (record r { backoff_count = count }));
    } in
    let here = set_failure-same m.failures a.id (some (record r { backoff_count = count })) in
    elim (Bool-cases (leb max_backoff_retries count)) [
      | inl many ↦
          rw (soon, many)
            (ap (λ n. n.failures a.id) (try_db_recovery-nothing load_account counted a now h)
              ∙ here)
      | inr few ↦ rw (soon, few) here
    ]

before_lock-same :
    (load_account : String → Option Account) (m : TokenManager) (a : Account) (r : FailureRecord)
    (now : ℤ)
    → m.failures a.id ≡ some r
    → ltb_ℤ (now -ℤ r.timestamp) token_refresh_backoff_ms ≡ true
    → and_then (load_account a.id) (λ db. recovered a db now) ≡ none
    → (before_lock load_account m a now).manager.failures a.id
      ≡ some (record r { backoff_count = (r.backoff_count + 1) % 2 ^ 32 })
unfolding before_lock
before_lock-same load_account m a r now k soon h =
    rw (cleanup_keeps m a.id r now k soon, before_lock)
      (back_off-same load_account (cleanup_expired_failures m now) a r now soon h)

-- A call for the account itself counts, and leaves the time.
same_keeps :
    (t : ℤ) (m : TokenManager) (c : Later)
    → ltb_ℤ (c.at -ℤ t) token_refresh_backoff_ms ≡ true
    → NothingNewer c
    → Kept c.copy.id t m
    → Kept c.copy.id t (call_at m c).manager
same_keeps t m c soon nothing (n, k) =
    let r : FailureRecord = record { timestamp = t; backoff_count = n } in
    let held : Failures → Type 0 =
      λ f. (i : ℕ) × (f c.copy.id ≡ some (record { timestamp = t; backoff_count = i })) in
    let stops = begin_call-stops c.load_account m c.copy r c.at k soon in
    get_valid_access_token-holds held m c
      (begin_call-holds held c.load_account m c.copy c.at (n, k)
        ((n + 1) % 2 ^ 32, before_lock-same c.load_account m c.copy r c.at k soon nothing))
      (λ waits. absurd (stops waits))

call_keeps :
    (id : String) (t : ℤ) (m : TokenManager) (c : Later)
    → Within id t c
    → Kept id t m
    → Kept id t (call_at m c).manager
call_keeps id t m c (soon, h) k = elim (Bool-cases (str_eq id c.copy.id)) [
  | inr other ↦ other_keeps id t m c soon other k
  | inl same ↦
      let e = (str_eq_iff id c.copy.id).0 same in
      subst (λ i. Kept i t (call_at m c).manager) (sym e)
        (same_keeps t m c soon (nothing_newer same h) (subst (λ i. Kept i t m) e k))
]
  where
    nothing_newer :
        str_eq id c.copy.id ≡ true → (str_eq id c.copy.id ≡ false) ⊎ NothingNewer c → NothingNewer c
    nothing_newer y (inl n) = cc
    nothing_newer y (inr n) = n

-- The call is not for the account, or it did not ask the provider.
abbrev pub NotAsked : String → Later × Call → Type 0
NotAsked id x = (str_eq id x.0.copy.id ≡ false) ⊎ (x.1.refreshed ≡ false)

call-NotAsked :
    (id : String) (t : ℤ) (m : TokenManager) (c : Later)
    → Within id t c
    → Kept id t m
    → NotAsked id (c, call_at m c)
call-NotAsked id t m c (soon, h) (n, k) = elim (Bool-cases (str_eq id c.copy.id)) [
  | inr other ↦ inl other
  | inl same ↦
      let e = (str_eq_iff id c.copy.id).0 same in
      inr (
        backs_off c.load_account c.refresh_token (λ n. n) m c.copy
          (record { timestamp = t; backoff_count = n }) c.at (ap m.failures (sym e) ∙ k) soon)
]

calls-NotAsked :
    (id : String) (t : ℤ) (m : TokenManager) (calls : List Later)
    → All (Within id t) calls
    → Kept id t m
    → All (NotAsked id) (calls_from m calls)
calls-NotAsked id t m [] h k = tt
calls-NotAsked id t m (c ∷ cs) h k = (
  call-NotAsked id t m c h.0 k,
  calls-NotAsked id t (call_at m c).manager cs h.1 (call_keeps id t m c h.0 k),
)

-- A call whose refresh failed is followed by calls one after another, for this account and others,
-- all within a minute. As long as the database holds no other fresh token to recover, none of those
-- for the account asks the provider, however many they are. What other tasks did while the failed
-- call waited for its lock is left open.
pub failed_then_backs_off :
    (load_account : String → Option Account)
    → (refresh_token : Account → String → Answer TokenRefreshResult String)
    → (others : TokenManager → TokenManager) (m : TokenManager) (account : Account) (now : ℤ)
    → (e : TokenError)
    → (get_valid_access_token load_account refresh_token others m account now).refreshed ≡ true
    → (get_valid_access_token load_account refresh_token others m account now).result ≡ some (err e)
    → (calls : List Later) → All (Within account.id now) calls
    → All (NotAsked account.id) (
        calls_from
          (get_valid_access_token load_account refresh_token others m account now).manager
          calls)
failed_then_backs_off load_account refresh_token others m account now e h k calls soon =
    calls-NotAsked account.id now _ calls soon
      (0, failure_recorded load_account refresh_token others m account now e h k)
