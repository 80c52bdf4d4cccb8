-- ===== src/Health/Ladder.antt =====
-- Token health of crates/proxy/src/token_health.rs: the ladder against the clock, and the summary.
use better_ccflare_rs.Base.{
  subst, ◌*◌, ◌<◌, ℕ, suc, ◌+◌, ◌≤◌, ◌≡◌, refl, sym, ap, inl, inr, true, false, none, some, List,
  [], ◌∷◌, map, arith, Bool-cases, length,
}
use better_ccflare_rs.Base.Int.{ℤ, pos, negsuc, ◌+ℤ◌, ◌-ℤ◌, ◌≤ℤ◌, eq_ℤ, div_ℤ, int_laws}
use better_ccflare_rs.Base.Float.{finite, scale}
use better_ccflare_rs.Base.Double.{
  lit, ◌*f◌, ◌/f◌, from_int, positive, round, excess, too_large, leb_f,
}
use better_ccflare_rs.Base.Ceiling.{scale_pos, from_int_mono, over_mono, ceil_mono}
use better_ccflare_rs.Account.{Account}
use better_ccflare_rs.Health.{
  day_f, ceil_days, HealthStatus, healthy, warning, critical, expired, no_refresh_token,
  TokenHealthStatus, ladder, days_left, age_days, token_issued_at, check_refresh_token_health,
  check_all_accounts_health, count_status, day_ms, is_empty, refresh_token_max_age_ms,
}

pub day_exact : day_f ≡ finite (pos (86_400_000 * scale))
unfolding day_f lit ◌*f◌ positive round scale excess too_large
day_exact = refl

pub day_pos : 0 < 86_400_000 * scale
day_pos = grind (arith, scale_pos)

ceil_days_mono : (a b : ℤ) → a ≤ℤ b → ceil_days a ≤ℤ ceil_days b
unfolding ceil_days
ceil_days_mono a b h = ceil_mono (from_int a /f day_f) (from_int b /f day_f) (
    subst (λ d. leb_f (from_int a /f d) (from_int b /f d) ≡ true) (sym day_exact)
      (over_mono (86_400_000 * scale) day_pos (from_int a) (from_int b) (from_int_mono a b h)))

div_ℤ_mono : (a b : ℤ) → a ≤ℤ b → div_ℤ a day_ms ≤ℤ div_ℤ b day_ms
div_ℤ_mono (pos a) (pos b) h = omega arith
div_ℤ_mono (pos a) (negsuc b) h = absurd (omega arith)
div_ℤ_mono (negsuc a) (pos b) h = ground arith
div_ℤ_mono (negsuc a) (negsuc b) h = ground arith

-- How bad a status is.
abbrev pub severity : HealthStatus → ℕ
severity healthy = 0
severity warning = 1
severity critical = 2
severity expired = 3
severity no_refresh_token = 4

ladder_mono :
    (d d' a a' : ℤ) → d' ≤ℤ d → a ≤ℤ a' → severity (ladder d a).0 ≤ severity (ladder d' a').0
unfolding ladder
ladder_mono d d' a a' h k = ground arith

days_left_mono :
    (account : Account) (now later : ℤ)
    → now ≤ℤ later
    → days_left account later ≤ℤ days_left account now
unfolding days_left
days_left_mono account now later h =
    let expiry = token_issued_at account +ℤ refresh_token_max_age_ms in
    ceil_days_mono (expiry -ℤ later) (expiry -ℤ now) (omega int_laws)

age_days_mono :
    (account : Account) (now later : ℤ)
    → now ≤ℤ later
    → age_days account now ≤ℤ age_days account later
unfolding age_days
age_days_mono account now later h =
    div_ℤ_mono (now -ℤ token_issued_at account) (later -ℤ token_issued_at account) (omega int_laws)

abbrev status_of : Account → ℤ → HealthStatus
status_of account now = (check_refresh_token_health account now).status

status-without :
    (account : Account) (now : ℤ)
    → is_empty account.refresh_token ≡ true
    → status_of account now ≡ no_refresh_token
unfolding check_refresh_token_health
status-without account now e =
    rw (e, status_of) (elim account.api_key [ none ↦ refl | some key ↦ refl ])

status-unknown :
    (account : Account) (now : ℤ)
    → is_empty account.refresh_token ≡ false
    → eq_ℤ (token_issued_at account) (pos 0) ≡ true
    → status_of account now ≡ warning
unfolding check_refresh_token_health
status-unknown account now e k = rw (e, status_of) (rw k refl)

status-known :
    (account : Account) (now : ℤ)
    → is_empty account.refresh_token ≡ false
    → eq_ℤ (token_issued_at account) (pos 0) ≡ false
    → status_of account now ≡ (ladder (days_left account now) (age_days account now)).0
unfolding check_refresh_token_health
status-known account now e k = rw (e, status_of) (rw k refl)

-- As time goes on, the status of a token never gets better.
pub health_mono :
    (account : Account) (now later : ℤ)
    → now ≤ℤ later
    → severity (check_refresh_token_health account now).status
      ≤ severity (check_refresh_token_health account later).status
health_mono account now later h = elim (Bool-cases (is_empty account.refresh_token)) [
  | inl e ↦ rw (status-without account now e) (rw (status-without account later e) (omega arith))
  | inr e ↦ elim (Bool-cases (eq_ℤ (token_issued_at account) (pos 0))) [
    | inl k ↦
        rw (status-unknown account now e k) (rw (status-unknown account later e k) (omega arith))
    | inr k ↦ rw (status-known account now e k) (
        rw (status-known account later e k) (
          ladder_mono (days_left account now) (days_left account later) (age_days account now)
            (age_days account later) (days_left_mono account now later h)
            (age_days_mono account now later h)))
  ]
]

-- The counts of a list of statuses.
abbrev counts : List TokenHealthStatus → ℕ
counts ts =
    count_status healthy ts
    + count_status warning ts
    + count_status critical ts
    + count_status expired ts
    + count_status no_refresh_token ts

one_count :
    (t : TokenHealthStatus) (ts : List TokenHealthStatus) → counts (t ∷ ts) ≡ suc (counts ts)
one_count t ts = ground arith

counts-length : (ts : List TokenHealthStatus) → counts ts ≡ length ts
counts-length [] = omega arith
counts-length (t ∷ ts) = omega (arith, one_count t ts, counts-length ts)

length-map : (f : Account → TokenHealthStatus) (xs : List Account) → length (map f xs) ≡ length xs
length-map f [] = refl
length-map f (x ∷ xs) = ap suc (length-map f xs)

-- The five counts of a report add up to the accounts.
pub summary_adds_up :
    (accounts : List Account) (now : ℤ)
    → let s = (check_all_accounts_health accounts now).summary in
      (s.total ≡ length accounts)
      × (s.healthy_count + s.warning_count + s.critical_count + s.expired_count
            + s.no_refresh_token_count
          ≡ s.total)
unfolding check_all_accounts_health
summary_adds_up accounts now =
    let ts = map (λ a. check_refresh_token_health a now) accounts in
    (length-map (λ a. check_refresh_token_health a now) accounts, counts-length ts)
