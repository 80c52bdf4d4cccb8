-- ===== src/Eligibility/Blocking.antt =====
-- Why crates/core/src/account_eligibility.rs keeps an account out of the routing.
use better_ccflare_rs.Base.{
  ◌≡◌, refl, ◌↔◌, ◌⊎◌, inl, inr, Bool, true, List, [], ◌∷◌, none, some, arith, In, Option-cases,
}
use better_ccflare_rs.Base.Int.{ℤ, pos, ◌≤ℤ◌}
use better_ccflare_rs.Account.{Account, RoutingUsageInfo, UsageMap}
use better_ccflare_rs.Eligibility.{
  AccountBlockReason, push_if, is_auth_failure, from_raw, is_rate_limited, is_overage_blocked,
  is_hard_reserve_blocked, fails_closed, is_at_overage, is_at_reserve, evaluate_account_eligibility,
  normalize_epoch_millis, is_empty,
}

-- What each reason means, said of the account and of the usage that is known of it.
abbrev pub Blocks : Account → UsageMap → ℤ → AccountBlockReason → Type 0
Blocks a usage now AccountBlockReason.paused = a.paused ≡ true
Blocks a usage now AccountBlockReason.auth_failed =
    is_auth_failure (from_raw a.rate_limit_status) ≡ true
Blocks a usage now AccountBlockReason.active_rate_limit =
    (until : ℤ) × (a.rate_limited_until ≡ some until) × (now ≤ℤ normalize_epoch_millis until)
Blocks a usage now AccountBlockReason.overage_protection =
    (a.overage_protection ≡ true)
    × ((info : RoutingUsageInfo) × (usage a.id ≡ some info) × (is_at_overage a info ≡ true))
Blocks a usage now AccountBlockReason.hard_reserve =
    (a.reserve_hard ≡ true)
    × (((usage a.id ≡ none) × ((pos 1 ≤ℤ a.reserve_5h) ⊎ (pos 1 ≤ℤ a.reserve_weekly)))
        ⊎ (is_at_reserve a usage ≡ true))

-- The flag that the code computes for each reason.
abbrev flag : Account → UsageMap → ℤ → AccountBlockReason → Bool
flag a usage now AccountBlockReason.paused = a.paused
flag a usage now AccountBlockReason.auth_failed = is_auth_failure (from_raw a.rate_limit_status)
flag a usage now AccountBlockReason.active_rate_limit = is_rate_limited a now
flag a usage now AccountBlockReason.overage_protection = is_overage_blocked a usage
flag a usage now AccountBlockReason.hard_reserve = is_hard_reserve_blocked a usage

flag-Blocks :
    (a : Account) (usage : UsageMap) (now : ℤ) (r : AccountBlockReason)
    → flag a usage now r ≡ true
    → Blocks a usage now r
unfolding is_rate_limited is_overage_blocked is_hard_reserve_blocked fails_closed
flag-Blocks a usage now AccountBlockReason.paused h = h
flag-Blocks a usage now AccountBlockReason.auth_failed h = h
flag-Blocks a usage now AccountBlockReason.active_rate_limit h =
    elim (Option-cases a.rate_limited_until) [
      | inl e ↦ absurd (ground (arith, e))
      | inr (u, e) ↦ (u, e, ground (arith, e))
    ]
flag-Blocks a usage now AccountBlockReason.overage_protection h = elim (Option-cases (usage a.id)) [
  | inl e ↦ absurd (ground (arith, e))
  | inr (u, e) ↦ (ground (arith, e), (u, e, ground (arith, e)))
]
flag-Blocks a usage now AccountBlockReason.hard_reserve h = ground arith

Blocks-flag :
    (a : Account) (usage : UsageMap) (now : ℤ) (r : AccountBlockReason)
    → Blocks a usage now r
    → flag a usage now r ≡ true
unfolding is_rate_limited is_overage_blocked is_hard_reserve_blocked fails_closed
Blocks-flag a usage now AccountBlockReason.paused h = h
Blocks-flag a usage now AccountBlockReason.auth_failed h = h
Blocks-flag a usage now AccountBlockReason.active_rate_limit (u, e, h) = ground (arith, e, h)
Blocks-flag a usage now AccountBlockReason.overage_protection (h, (u, e, o)) =
    ground (arith, h, e, o)
Blocks-flag a usage now AccountBlockReason.hard_reserve (h, o) = ground (arith, h, o)

-- Five flags, pushed in turn, leave exactly the reasons whose flag is up.
pushed : (Bool × Bool × Bool × Bool × Bool) → List AccountBlockReason
pushed f = push_if f.4 AccountBlockReason.hard_reserve (
    push_if f.3 AccountBlockReason.overage_protection (
      push_if f.2 AccountBlockReason.active_rate_limit
        (push_if f.1 AccountBlockReason.auth_failed (push_if f.0 AccountBlockReason.paused []))))

abbrev raised : (Bool × Bool × Bool × Bool × Bool) → AccountBlockReason → Bool
raised f AccountBlockReason.paused = f.0
raised f AccountBlockReason.auth_failed = f.1
raised f AccountBlockReason.active_rate_limit = f.2
raised f AccountBlockReason.overage_protection = f.3
raised f AccountBlockReason.hard_reserve = f.4

pushed_iff :
    (f : Bool × Bool × Bool × Bool × Bool) (r : AccountBlockReason)
    → In r (pushed f) ↔ (raised f r ≡ true)
unfolding pushed
pushed_iff (a, b, c, d, e) AccountBlockReason.paused = ground arith
pushed_iff (a, b, c, d, e) AccountBlockReason.auth_failed = ground arith
pushed_iff (a, b, c, d, e) AccountBlockReason.active_rate_limit = ground arith
pushed_iff (a, b, c, d, e) AccountBlockReason.overage_protection = ground arith
pushed_iff (a, b, c, d, e) AccountBlockReason.hard_reserve = ground arith

flags : Account → UsageMap → ℤ → Bool × Bool × Bool × Bool × Bool
flags a usage now = (
  a.paused,
  is_auth_failure (from_raw a.rate_limit_status),
  is_rate_limited a now,
  is_overage_blocked a usage,
  is_hard_reserve_blocked a usage,
)

blocked_by-pushed :
    (a : Account) (usage : UsageMap) (now : ℤ)
    → (evaluate_account_eligibility a usage now).blocked_by ≡ pushed (flags a usage now)
unfolding evaluate_account_eligibility pushed flags
blocked_by-pushed a usage now = refl

raised-flag :
    (a : Account) (usage : UsageMap) (now : ℤ) (r : AccountBlockReason)
    → raised (flags a usage now) r ≡ flag a usage now r
unfolding flags
raised-flag a usage now AccountBlockReason.paused = refl
raised-flag a usage now _ = refl

-- The reported reasons are exactly those that hold of the account.
pub blocked_by_iff :
    (a : Account) (usage : UsageMap) (now : ℤ) (r : AccountBlockReason)
    → In r (evaluate_account_eligibility a usage now).blocked_by ↔ Blocks a usage now r
blocked_by_iff a usage now r =
    let (there, back) = pushed_iff (flags a usage now) r in
    rw (blocked_by-pushed a usage now) (
      λ i. flag-Blocks a usage now r (rw (← raised-flag a usage now r) (there i)),
      λ b. back (rw (raised-flag a usage now r) (Blocks-flag a usage now r b)),
    )

routable_lem :
    (a : Account) (usage : UsageMap) (now : ℤ)
    → (evaluate_account_eligibility a usage now).routable
      ≡ is_empty (evaluate_account_eligibility a usage now).blocked_by
unfolding evaluate_account_eligibility
routable_lem a usage now = refl

not-In_empty :
    (rs : List AccountBlockReason) (r : AccountBlockReason) → is_empty rs ≡ true → ¬ In r rs
not-In_empty [] r e i = i
not-In_empty (x ∷ xs) r e i = cc

is_empty_of_none :
    (rs : List AccountBlockReason) → ((r : AccountBlockReason) → ¬ In r rs) → is_empty rs ≡ true
is_empty_of_none [] h = refl
is_empty_of_none (x ∷ xs) h = absurd (h x (inl refl))

-- An account is routable exactly when no reason holds of it.
pub routable_iff :
    (a : Account) (usage : UsageMap) (now : ℤ)
    → ((evaluate_account_eligibility a usage now).routable ≡ true)
      ↔ ((r : AccountBlockReason) → ¬ Blocks a usage now r)
routable_iff a usage now = rw (routable_lem a usage now) (
  λ e r b. not-In_empty _ r e ((blocked_by_iff a usage now r).1 b),
  λ h. is_empty_of_none _ (λ r i. h r ((blocked_by_iff a usage now r).0 i)),
)
