-- ===== src/Retry.antt =====
-- crates/database/src/retry.rs and error.rs: a closure is run again while the database is busy. The
-- closure works on a state that it passes on; the time slept is recorded. The error of SQLite is the
-- code that it answers with, and other errors their text.
pub mod Attempts
use better_ccflare_rs.Base.{
  ℕ, zero, suc, ◌+◌, ◌-◌, ◌*◌, ◌/◌, ◌≤◌, ◌<◌, min, max, String, ◌≡◌, refl, sym, ap, subst, ◌∙◌, ◌≢◌,
  ◌↔◌, ◌⊎◌, inl, inr, Bool, true, false, not, ◌&&◌, ◌||◌, Option, none, some, List, [], ◌∷◌, ◌++◌,
  map, arith, str_eq, str_eq_iff, ltb, leb, ◌==◌, if◌then◌else◌, Bool-cases, length, take,
  get_elem?, filter, any, In, All, Pairs, All-In, All-of_In, Yields, Ensures, all, ◌^◌,
  length-append, length-take,
}
use better_ccflare_rs.Base.Int.{ℤ, pos}
use better_ccflare_rs.Base.Float.{F64, finite}
use better_ccflare_rs.Base.Double.{
  lit, from_int, ◌+f◌, ◌-f◌, ◌*f◌, ◌/f◌, max_f, min_f, powi, rem_f, to_u64,
}
use better_ccflare_rs.Tokens.{Answer, ok, err}

pub data ErrorCode : Type 0 where
  database_busy database_locked : ErrorCode
  other_code : ℕ → ErrorCode

pub data DbError : Type 0 where
  sqlite : Option ErrorCode → DbError
  pool migration io other : String → DbError
  busy_timeout : DbError

unfoldable pub is_busy : DbError → Bool
is_busy (sqlite (some database_busy)) = true
is_busy (sqlite (some database_locked)) = true
is_busy _ = false

pub record RetryConfig : Type 0 where
  pub max_attempts : ℕ
  pub initial_delay_ms : ℕ
  pub backoff_factor : F64
  pub max_delay_ms : ℕ
  pub jitter_factor : F64

unfoldable pub default_config : RetryConfig
default_config = record {
  max_attempts = 3;
  initial_delay_ms = 100;
  backoff_factor = lit 2 1;
  max_delay_ms = 5_000;
  jitter_factor = lit 1 10;
}

-- In milliseconds.
unfoldable pub delay_for_attempt : RetryConfig → ℕ → ℕ
delay_for_attempt c attempt =
    let base = from_int (pos c.initial_delay_ms) *f powi c.backoff_factor attempt in
    let capped = min_f base (from_int (pos c.max_delay_ms)) in
    let jitter_range = capped *f c.jitter_factor in
    let jitter =
      jitter_range
      *f (rem_f (from_int (pos attempt) *f lit 7 1) (lit 20 1) /f lit 10 1 -f lit 1 1) in
    to_u64 (max_f (capped +f jitter) (finite (pos 0)))

-- How a run ended, and the delays between its attempts.
pub record Outcome (S T : Type 0) : Type 0 where
  pub state : S
  pub result : Answer T DbError
  pub slept : List ℕ

abbrev pub done : {S T : Type 0} → S → Answer T DbError → Outcome S T
done s r = record { state = s; result = r; slept = [] }

abbrev pub unwrap_or : Option DbError → DbError → DbError
unwrap_or none e = e
unwrap_or (some x) e = x

-- The loop from an attempt on, with the number of attempts that are left.
unfoldable pub retry_loop :
    {S T : Type 0}
    → RetryConfig
    → (S → S × Answer T DbError)
    → (left attempt : ℕ) → Option DbError
    → S
    → Outcome S T
retry_loop c f zero attempt last s = done s (err (unwrap_or last busy_timeout))
retry_loop c f (suc left) attempt last s =
    let s' = (f s).0 in
    elim (f s).1 [
      | ok v ↦ done s' (ok v)
      | err e ↦
          let rest = retry_loop c f left (attempt + 1) (some e) s' in
          if is_busy e && ltb (attempt + 1) c.max_attempts
          then record {
            state = rest.state;
            result = rest.result;
            slept = delay_for_attempt c attempt ∷ rest.slept;
          }
          else done s' (err e)
    ]

unfoldable pub with_retry :
    {S T : Type 0} → RetryConfig → (S → S × Answer T DbError) → S → Outcome S T
with_retry c f s = retry_loop c f c.max_attempts 0 none s
