-- ===== src/Balancer/Session.antt =====
-- Sessions in crates/load-balancer/src/lib.rs: resets and active sessions.
use better_ccflare_rs.Base.{
  ◌≢◌, ap, inl, inr, if◌then◌else◌, ◌≡◌, true, false, Option, none, some, arith, ◌⊎◌,
}
use better_ccflare_rs.Base.Int.{ℤ, ◌≤ℤ◌, ◌-ℤ◌, ltb_ℤ}
use better_ccflare_rs.Account.{Account}
use better_ccflare_rs.Balancer.{
  SessionReset, maybe_reset_session, fixed_duration_expired, rate_limit_window_reset, window_reset,
  has_active_session, requires_session_tracking,
}

-- A reset only touches the session and the rate-limit stamp.
pub maybe_reset_session-id :
    (d : ℤ) (a : Account) (now : ℤ) → (maybe_reset_session d a now).0.id ≡ a.id
unfolding maybe_reset_session
maybe_reset_session-id d a now = ground arith

reset_cases :
    (d : ℤ) (a : Account) (now : ℤ)
    → ((maybe_reset_session d a now ≡ (a, none))
        × (fixed_duration_expired d a now ≡ false)
        × (rate_limit_window_reset a now ≡ false))
      ⊎ (((maybe_reset_session d a now).0.session_start ≡ some now)
          × ((maybe_reset_session d a now).0.provider ≡ a.provider)
          × ((maybe_reset_session d a now).0.rate_limit_reset
              ≡ (if rate_limit_window_reset a now then none else a.rate_limit_reset))
          × ((maybe_reset_session d a now).1 ≢ none))
unfolding maybe_reset_session
reset_cases d a now = ground arith

-- A fresh session is neither too old nor, unless another stamp runs out, reset for its window.
fresh_kept :
    (d : ℤ) (a b : Account) (now later : ℤ)
    → b.session_start ≡ some now
    → b.provider ≡ a.provider
    → b.rate_limit_reset ≡ (if rate_limit_window_reset a now then none else a.rate_limit_reset)
    → ltb_ℤ (later -ℤ now) d ≡ true
    → (rate_limit_window_reset a later ≡ true → rate_limit_window_reset a now ≡ true)
    → (maybe_reset_session d b later).1 ≡ none
unfolding maybe_reset_session fixed_duration_expired rate_limit_window_reset window_reset
fresh_kept d a b now later st pr rs short same = ground arith

-- A session that was just reset is not reset again while it lasts, unless a rate-limit stamp that
-- had not run out at the reset does so in between.
pub maybe_reset_session_settles :
    (d : ℤ) (a : Account) (now later : ℤ)
    → ltb_ℤ (later -ℤ now) d ≡ true
    → (maybe_reset_session d a now).1 ≢ none
    → (rate_limit_window_reset a later ≡ true → rate_limit_window_reset a now ≡ true)
    → (maybe_reset_session d (maybe_reset_session d a now).0 later).1 ≡ none
maybe_reset_session_settles d a now later short was same = elim (reset_cases d a now) [
  | inl (e, _, _) ↦ absurd (was (ap (λ (r : Account × Option SessionReset). r.1) e))
  | inr (st, pr, rs, _) ↦ fresh_kept d a _ now later st pr rs short same
]

-- For a provider that keeps sessions, a reset starts a session that is active until the session's
-- duration has passed.
reset_session_active :
    (d : ℤ) (a : Account) (now later : ℤ)
    → requires_session_tracking a.provider ≡ true
    → (maybe_reset_session d a now).1 ≢ none
    → now ≤ℤ later
    → ltb_ℤ (later -ℤ now) d ≡ true
    → has_active_session d (maybe_reset_session d a now).0 later ≡ true
unfolding maybe_reset_session has_active_session
reset_session_active d a now later t r h s = ground arith
