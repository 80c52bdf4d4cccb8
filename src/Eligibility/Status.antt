-- ===== src/Eligibility/Status.antt =====
-- Time stamps of crates/core/src/account_eligibility.rs: seconds and milliseconds.
use better_ccflare_rs.Base.{ℕ, ◌*◌, ◌≤◌, ◌<◌, ◌≡◌, arith}
use better_ccflare_rs.Base.Int.{ℤ, pos, ◌≤ℤ◌, abs_ℤ}
use better_ccflare_rs.Eligibility.{normalize_epoch_millis}

-- An instant after 2001 and before the year 33658 normalizes to the same milliseconds, whichever
-- unit it is given in.
normalize-units :
    (s : ℕ)
    → 1_000_000_000 ≤ s
    → s < 1_000_000_000_000
    → normalize_epoch_millis (pos s) ≡ normalize_epoch_millis (pos (s * 1000))
unfolding normalize_epoch_millis
normalize-units s lo hi = ground arith

-- From the second reading on nothing changes any more.
pub normalize-idempotent :
    (ts : ℤ)
    → 1_000_000_000 ≤ abs_ℤ ts
    → normalize_epoch_millis (normalize_epoch_millis ts) ≡ normalize_epoch_millis ts
unfolding normalize_epoch_millis
normalize-idempotent ts h = ground arith

-- The later of two instants stays the later, when both are in the same unit.
pub normalize_mono_seconds :
    (s t : ℕ)
    → s ≤ t
    → t < 1_000_000_000_000
    → normalize_epoch_millis (pos s) ≤ℤ normalize_epoch_millis (pos t)
unfolding normalize_epoch_millis
normalize_mono_seconds s t h hi = ground arith
