-- ===== src/Report/Agreement.antt =====
-- The two checks of refresh tokens, crates/providers/src/token_health.rs and
-- crates/proxy/src/token_health.rs, side by side.
use better_ccflare_rs.Base.{
  sym, ◌∙◌, ◌<◌, ◌*◌, ◌^◌, ℕ, suc, ◌+◌, String, ◌≡◌, refl, ap, subst, inl, inr, Bool, true, false,
  not, Option, none, some, List, [], ◌∷◌, map, arith, Bool-cases, length,
}
use better_ccflare_rs.Base.Int.{abs_ℤ, ℤ, pos, negsuc, ◌+ℤ◌, ◌-ℤ◌, eq_ℤ}
use better_ccflare_rs.Account.{Account}
use better_ccflare_rs.Health
use better_ccflare_rs.Health.{
  check_refresh_token_health, token_issued_at, days_left, age_days, day_ms,
  check_all_accounts_health, ladder,
}
use better_ccflare_rs.Report
use better_ccflare_rs.Health.Days.{days_pos, days_neg}
use better_ccflare_rs.Health.{ceil_days}
use better_ccflare_rs.Report.{
  is_some, is_api_key_provider, ceil_div, issued_at, verdict, check_token_health, count_one,
  count_all, empty_summary, generate_report, HealthSummary, TokenHealthStatus, is_empty, ms_per_day,
}

-- The statuses of the one crate in the other.
abbrev pub proxied : Report.HealthStatus → Health.HealthStatus
proxied Report.HealthStatus.healthy = Health.HealthStatus.healthy
proxied Report.HealthStatus.warning = Health.HealthStatus.warning
proxied Report.HealthStatus.critical = Health.HealthStatus.critical
proxied Report.HealthStatus.expired = Health.HealthStatus.expired
proxied Report.HealthStatus.no_refresh_token = Health.HealthStatus.no_refresh_token

verdict-ladder :
    (d a : ℤ) → (proxied (verdict d a).0 ≡ (ladder d a).0) × ((verdict d a).2 ≡ (ladder d a).2)
unfolding verdict ladder
verdict-ladder d a = ground arith

-- Less than 2 ^ 26 days, in milliseconds.
abbrev pub InReach : ℤ → Type 0
InReach a = abs_ℤ a < 2 ^ 26 * 86_400_000

ceil_div-same : (a : ℤ) → InReach a → ceil_div a ms_per_day ≡ ceil_days a
unfolding ceil_div
ceil_div-same (pos n) h = sym (days_pos n (omega (arith, h)) ∙ ground arith)
ceil_div-same (negsuc n) h = sym (days_neg n (omega (arith, h)) ∙ ground arith)

issued_at-same : (account : Account) → issued_at account ≡ token_issued_at account
unfolding issued_at token_issued_at
issued_at-same account = refl

-- What the two checks are compared on.
abbrev Face : Type 0
Face = Health.HealthStatus × Option ℤ × Bool

abbrev report_face : Account → ℤ → Face
report_face account now =
    let t = check_token_health account now in
    (proxied t.status, t.days_until_expiration, t.requires_reauth)

abbrev health_face : Account → ℤ → Face
health_face account now =
    let t = check_refresh_token_health account now in
    (t.status, t.days_until_expiration, t.requires_reauth)

face-without :
    (account : Account) (now : ℤ)
    → is_empty account.refresh_token ≡ true
    → report_face account now ≡ health_face account now
unfolding check_token_health check_refresh_token_health
face-without account now e = rw (e, report_face, health_face) (reauth account.api_key)
  where
    reauth :
        (key : Option String)
        → Path Face
            (Health.HealthStatus.no_refresh_token, none, not (is_some key))
            (Health.HealthStatus.no_refresh_token, none, elim key [ some k ↦ false | none ↦ true ])
    reauth none = refl
    reauth (some k) = refl

face-unknown :
    (account : Account) (now : ℤ)
    → is_empty account.refresh_token ≡ false
    → is_api_key_provider account.provider ≡ false
    → eq_ℤ (token_issued_at account) (pos 0) ≡ true
    → report_face account now ≡ health_face account now
unfolding check_token_health check_refresh_token_health
face-unknown account now e k z =
    rw (e, report_face, health_face) (rw k (rw (issued_at-same account) (rw z refl)))

-- The time from `now` to the end of the account's token.
abbrev pub left_of : Account → ℤ → ℤ
left_of account now = token_issued_at account +ℤ Report.refresh_token_max_age_ms -ℤ now

days_same :
    (account : Account) (now : ℤ)
    → InReach (left_of account now)
    → ceil_div (token_issued_at account +ℤ Report.refresh_token_max_age_ms -ℤ now) ms_per_day
      ≡ days_left account now
unfolding days_left
days_same account now reach = ceil_div-same (left_of account now) reach

known_faces :
    (d d' a : ℤ)
    → d ≡ d'
    → Path Face
        (proxied (verdict d a).0, some d, (verdict d a).2)
        ((ladder d' a).0, some d', (ladder d' a).2)
known_faces d d' a e =
    subst
      (λ x.
        Path Face (proxied (verdict d a).0, some d, (verdict d a).2)
          ((ladder x a).0, some x, (ladder x a).2))
      e (λ i. ((verdict-ladder d a).0 i, some d, (verdict-ladder d a).1 i))

face-known :
    (account : Account) (now : ℤ)
    → InReach (left_of account now)
    → is_empty account.refresh_token ≡ false
    → is_api_key_provider account.provider ≡ false
    → eq_ℤ (token_issued_at account) (pos 0) ≡ false
    → report_face account now ≡ health_face account now
unfolding check_token_health check_refresh_token_health age_days
face-known account now reach e k z =
    rw (e, report_face, health_face)
      (rw k (
        rw (issued_at-same account) (
          rw z (
            known_faces
              (ceil_div (token_issued_at account +ℤ Report.refresh_token_max_age_ms -ℤ now)
                ms_per_day)
              (days_left account now) (age_days account now) (days_same account now reach)))))

-- For an account whose provider is not on the list of API key providers, and whose token ends within
-- 2 ^ 26 days from `now` or did so within as many before, both crates come to the same status, the
-- same days that are left and the same advice to sign in again: the one divides integers, the other
-- rounded doubles.
pub same_verdict :
    (account : Account) (now : ℤ)
    → is_api_key_provider account.provider ≡ false
    → InReach (left_of account now)
    → (proxied (check_token_health account now).status
        ≡ (check_refresh_token_health account now).status)
      × ((check_token_health account now).days_until_expiration
          ≡ (check_refresh_token_health account now).days_until_expiration)
      × ((check_token_health account now).requires_reauth
          ≡ (check_refresh_token_health account now).requires_reauth)
same_verdict account now k reach =
    let same : report_face account now ≡ health_face account now =
      elim (Bool-cases (is_empty account.refresh_token)) [
        | inl e ↦ face-without account now e
        | inr e ↦ elim (Bool-cases (eq_ℤ (token_issued_at account) (pos 0))) [
          | inl z ↦ face-unknown account now e k z
          | inr z ↦ face-known account now reach e k z
        ]
      ] in
    (ap (λ f. f.0) same, ap (λ f. f.1) same, ap (λ f. f.2) same)

-- The five counts of the report and the accounts that have to sign in again, counted one by one.
abbrev total_of : HealthSummary → ℕ
total_of s =
    s.healthy_count + s.warning_count + s.critical_count + s.expired_count
    + s.no_refresh_token_count

count_one-total :
    (s : HealthSummary) (t : TokenHealthStatus) → total_of (count_one s t) ≡ suc (total_of s)
unfolding count_one
count_one-total s t = ground arith

count_all-total :
    (s : HealthSummary) (ts : List TokenHealthStatus)
    → total_of (count_all s ts) ≡ total_of s + length ts
unfolding count_all
count_all-total s [] = omega arith
count_all-total s (t ∷ ts) = omega (arith, count_all-total (count_one s t) ts, count_one-total s t)

length-map : (f : Account → TokenHealthStatus) (xs : List Account) → length (map f xs) ≡ length xs
length-map f [] = refl
length-map f (x ∷ xs) = ap suc (length-map f xs)

-- The loop over the statuses counts every account under exactly one of the five statuses.
report_adds_up :
    (accounts : List Account) (now : ℤ)
    → let s = (generate_report accounts now).summary in
      s.healthy_count + s.warning_count + s.critical_count + s.expired_count
        + s.no_refresh_token_count
      ≡ length accounts
unfolding generate_report
report_adds_up accounts now =
    let ts = map (λ a. check_token_health a now) accounts in
    omega (
      arith,
      count_all-total (empty_summary (length ts)) ts,
      length-map (λ a. check_token_health a now) accounts,
    )
