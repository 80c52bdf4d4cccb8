-- ===== src/Refresher/Bounds.antt =====
-- The maps of crates/providers/src/token_manager.rs under any sequence of steps.
use better_ccflare_rs.Base.{
  leb→le, Option-cases, ℕ, zero, suc, ◌+◌, ◌-◌, ◌≤◌, String, ◌≡◌, sym, ap, subst, inl, inr, false,
  some, List, [], ◌∷◌, arith, str_eq, leb, Bool-cases, length, take, In, All, All-In, All-of_In,
  length-take,
}
use better_ccflare_rs.Base.Int.{◌-ℤ◌, ltb_ℤ, ℤ, cmp_ℤ}
use better_ccflare_rs.Base.Sort.{sort_by, sort_by-Pairs, sort_by-All, length-sort_by}
use better_ccflare_rs.Base.Maps.{
  get-In, In-set, set-In, get, Map, set, remove, OnePerKey, remove-OnePerKey, set-OnePerKey,
  length-remove, length-remove_le, In-remove, remove-In, str_eq_swap,
}
use better_ccflare_rs.Tokens.{TokenRefreshResult, Answer, ok, err}
use better_ccflare_rs.Account.{Account}
use better_ccflare_rs.Refresher.{
  token_refresh_backoff_ms, valid_token, is_api_key_provider, ProviderError, TokenManager,
  remove_each, enforce_max_failures, cleanup_expired_failures, before_lock, after_lock, begin_call,
  Step, begins, ends, clears, clears_all, step, run, clear_account, clear_all, new,
}
use Prim.Native.Nat.{Ordering}

-- One record for each key, and no counter without a failure record.
abbrev pub Consistent : TokenManager → Type 0
Consistent m =
    OnePerKey m.failures
    × OnePerKey m.backoff_counters
    × ((c : String × ℕ) → In c m.backoff_counters → (t : ℤ) × In (c.0, t) m.failures)

remove_both : String → TokenManager → TokenManager
remove_both k m = record m {
  failures = remove k m.failures;
  backoff_counters = remove k m.backoff_counters;
}

remove_both-Consistent :
    (k : String) (m : TokenManager) → Consistent m → Consistent (remove_both k m)
unfolding remove_both
remove_both-Consistent k m (f, c, s) = (
  remove-OnePerKey k m.failures f,
  remove-OnePerKey k m.backoff_counters c,
  λ e i.
      let (j, q) = In-remove k e m.backoff_counters i in
      let (t, l) = s e j in (t, remove-In k (e.0, t) m.failures l q),
)

pub remove_each-Consistent :
    (es : Map ℤ) (m : TokenManager) → Consistent m → Consistent (remove_each es m)
unfolding remove_each remove_both
remove_each-Consistent [] m h = h
remove_each-Consistent (e ∷ es) m h =
    remove_each-Consistent es (remove_both e.0 m) (remove_both-Consistent e.0 m h)

remove_each-le :
    (es : Map ℤ) (m : TokenManager) → length (remove_each es m).failures ≤ length m.failures
unfolding remove_each remove_both
remove_each-le [] m = omega arith
remove_each-le (e ∷ es) m =
    omega (arith, remove_each-le es (remove_both e.0 m), length-remove_le e.0 m.failures)

-- Each of distinct keys that are there takes one record out.
remove_each-length :
    (es : Map ℤ) (m : TokenManager)
    → OnePerKey es
    → All (λ e. In e m.failures) es
    → OnePerKey m.failures
    → length (remove_each es m).failures + length es ≡ length m.failures
unfolding remove_each remove_both
remove_each-length [] m u i d = omega arith
remove_each-length (e ∷ es) m u i d = omega (
  arith,
  remove_each-length es (remove_both e.0 m) u.1
      (All-of_In _ es
        (λ f j. remove-In e.0 f m.failures (All-In _ f es i.1 j) (All-In _ f es u.0 j)))
      (remove-OnePerKey e.0 m.failures d),
  length-remove e m.failures d i.0,
)

take-All : (P : String × ℤ → Type 0) (n : ℕ) (es : Map ℤ) → All P es → All P (take n es)
take-All P zero es h = tt
take-All P (suc n) [] h = tt
take-All P (suc n) (e ∷ es) h = (h.0, take-All P n es h.1)

take-OnePerKey : (n : ℕ) (es : Map ℤ) → OnePerKey es → OnePerKey (take n es)
take-OnePerKey zero es h = tt
take-OnePerKey (suc n) [] h = tt
take-OnePerKey (suc n) (e ∷ es) h = (take-All _ n es h.0, take-OnePerKey n es h.1)

by_time : String × ℤ → String × ℤ → Ordering
by_time d e = cmp_ℤ d.1 e.1

enforce-Consistent : (m : TokenManager) → Consistent m → Consistent (enforce_max_failures m)
unfolding enforce_max_failures
enforce-Consistent m h = elim (Bool-cases (leb (length m.failures) 1000)) [
  | inl e ↦ rw e h
  | inr e ↦ rw e (remove_each-Consistent _ m h)
]

abbrev evicted : TokenManager → Map ℤ
evicted m = take (length m.failures - 1000) (sort_by by_time m.failures)

length-evicted : (m : TokenManager) → length (evicted m) ≡ length m.failures - 1000
length-evicted m = omega (
  arith,
  length-take (length m.failures - 1000) (sort_by by_time m.failures),
  length-sort_by by_time m.failures,
)

-- The records that are dropped are distinct entries of the map.
evicted-OnePerKey : (m : TokenManager) → OnePerKey m.failures → OnePerKey (evicted m)
evicted-OnePerKey m u = take-OnePerKey (length m.failures - 1000) (sort_by by_time m.failures) (
    sort_by-Pairs by_time (λ d e. str_eq e.0 d.0 ≡ false) (λ d e q. str_eq_swap e.0 d.0 q)
      m.failures u)

evicted-In : (m : TokenManager) → All (λ e. In e m.failures) (evicted m)
evicted-In m =
    take-All _ (length m.failures - 1000) (sort_by by_time m.failures)
      (sort_by-All by_time (λ e. In e m.failures) m.failures (All-of_In _ m.failures (λ e i. i)))

enforce-bound :
    (m : TokenManager) → OnePerKey m.failures → length (enforce_max_failures m).failures ≤ 1000
unfolding enforce_max_failures by_time
enforce-bound m u = elim (Bool-cases (leb (length m.failures) 1000)) [
  | inl e ↦ rw e (leb→le (length m.failures) 1000 e)
  | inr e ↦
      let left = remove_each-length (evicted m) m (evicted-OnePerKey m u) (evicted-In m) u in
      let gone = length-evicted m in rw e (omega arith)
]

-- A counter is set where there is a failure record; it may go; a record is set at any key.
set_counter-Consistent :
    (m : TokenManager) (id : String) (t : ℤ) (n : ℕ)
    → get id m.failures ≡ some t
    → Consistent m
    → Consistent (record m { backoff_counters = set id n m.backoff_counters })
set_counter-Consistent m id t n q (f, c, s) = (
  f,
  set-OnePerKey id n m.backoff_counters c,
  λ e i. elim (In-set id n e m.backoff_counters i) [
    | inl r ↦
        (t, subst (λ k. In (k, t) m.failures) (ap (λ x. x.0) (sym r)) (get-In id m.failures t q))
    | inr j ↦ s e j
  ],
)

drop_counter-Consistent :
    (m : TokenManager) (id : String)
    → Consistent m
    → Consistent (record m { backoff_counters = remove id m.backoff_counters })
drop_counter-Consistent m id (f, c, s) = (
  f,
  remove-OnePerKey id m.backoff_counters c,
  λ e i. s e (In-remove id e m.backoff_counters i).0,
)

set_failure-Consistent :
    (m : TokenManager) (id : String) (t : ℤ)
    → Consistent m
    → Consistent (record m { failures = set id t m.failures })
set_failure-Consistent m id t (f, c, s) = (
  set-OnePerKey id t m.failures f,
  c,
  λ e i. let (u, j) = s e i in set-In id t u e.0 m.failures j,
)

-- What every step keeps: consistent maps, and at most a thousand failure records.
abbrev pub Bounded : TokenManager → Type 0
Bounded m = Consistent m × (length m.failures ≤ 1000)

pub cleanup-Bounded :
    (m : TokenManager) (now : ℤ) → Bounded m → Bounded (cleanup_expired_failures m now)
unfolding cleanup_expired_failures
cleanup-Bounded m now (c, b) = (remove_each-Consistent _ m c, omega (arith, remove_each-le _ m, b))

before_lock-Bounded :
    (m : TokenManager) (account : Account) (now : ℤ)
    → Bounded m
    → Bounded (before_lock m account now).manager
unfolding before_lock
before_lock-Bounded m account now h =
    let cleaned = cleanup_expired_failures m now in
    let (c, b) = cleanup-Bounded m now h in
    elim (Option-cases (get account.id cleaned.failures)) [
      | inl e ↦ rw (e, before_lock) (c, b)
      | inr (t, e) ↦ elim (Bool-cases (ltb_ℤ (now -ℤ t) token_refresh_backoff_ms)) [
        | inl q ↦ rw (e, before_lock) (rw q (set_counter-Consistent cleaned account.id t _ e c, b))
        | inr q ↦ rw (e, before_lock) (rw q (drop_counter-Consistent cleaned account.id c, b))
      ]
    ]

after_lock-Bounded :
    (m : TokenManager) (account : Account) (now : ℤ)
    → (answer : Answer TokenRefreshResult ProviderError) → Bounded m
    → Bounded (after_lock m account now answer).manager
unfolding after_lock remove_both
after_lock-Bounded m account now (ok r) (c, b) = (
  remove_both-Consistent account.id m c,
  omega (arith, length-remove_le account.id m.failures, b),
)
after_lock-Bounded m account now (err e) (c, b) =
    let failed : TokenManager = record m { failures = set account.id now m.failures } in
    let k = set_failure-Consistent m account.id now c in
    (enforce-Consistent failed k, enforce-bound failed k.0)

begin_call-Bounded :
    (m : TokenManager) (account : Account) (now : ℤ)
    → Bounded m
    → Bounded (begin_call m account now).manager
unfolding begin_call
begin_call-Bounded m account now h = elim (Bool-cases (is_api_key_provider account.provider)) [
  | inl e ↦ rw e h
  | inr e ↦ rw e (elim (Option-cases (valid_token account now)) [
    | inl q ↦ rw q (before_lock-Bounded m account now h)
    | inr (t, q) ↦ rw q h
  ])
]

step-Bounded : (m : TokenManager) (s : Step) → Bounded m → Bounded (step m s)
unfolding step clear_account clear_all remove_both
step-Bounded m (begins account now) h = begin_call-Bounded m account now h
step-Bounded m (ends account now answer) h = after_lock-Bounded m account now answer h
step-Bounded m (clears id) (c, b) =
    (remove_both-Consistent id m c, omega (arith, length-remove_le id m.failures, b))
step-Bounded m clears_all h = ((tt, tt, λ c i. absurd i), omega arith)

run-Bounded : (m : TokenManager) (steps : List Step) → Bounded m → Bounded (run m steps)
unfolding run
run-Bounded m [] h = h
run-Bounded m (s ∷ steps) h = run-Bounded (step m s) steps (step-Bounded m s h)

-- Whatever steps tasks take on a fresh manager, in whatever order, it never holds more than a thousand
-- failure records, has one for each account, and has no back-off counter without a failure record.
pub run-new : (steps : List Step) → Bounded (run new steps)
unfolding new
run-new steps = run-Bounded new steps ((tt, tt, λ c i. absurd i), omega arith)
