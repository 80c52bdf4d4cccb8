-- ===== src/AutoRefresh/Windows.antt =====
-- When crates/proxy/src/auto_refresh.rs asks for a new usage window.
use better_ccflare_rs.Base.{
  Option-cases, ◌≡◌, refl, sym, ◌∙◌, ◌↔◌, ◌⊎◌, inl, inr, Bool, true, false, ◌||◌, none, some, arith,
  Bool-cases,
}
use better_ccflare_rs.Base.Int.{ℤ, ◌-ℤ◌, ltb_ℤ, leb_ℤ}
use better_ccflare_rs.Base.Maps.{get}
use better_ccflare_rs.AutoRefresh.{
  RefreshableAccount, SchedulerState, due, should_refresh, stale_threshold_ms,
}

stale_passed :
    (reset now : ℤ) → ltb_ℤ reset (now -ℤ stale_threshold_ms) ≡ true → leb_ℤ reset now ≡ true
unfolding ◌-ℤ◌
stale_passed reset now h = ground (arith, h)

-- A reset time more than a day old has passed: the last of the tests never decides.
due_lem : (reset last now : ℤ) → due reset last now ≡ (leb_ℤ reset now || ltb_ℤ last reset)
unfolding due
due_lem reset last now = elim (Bool-cases (leb_ℤ reset now)) [
  | inl e ↦ rw e refl
  | inr e ↦ elim (Bool-cases (ltb_ℤ reset (now -ℤ stale_threshold_ms))) [
    | inl q ↦ absurd (ground (arith, e, stale_passed reset now q))
    | inr q ↦ rw e (rw q (ground arith))
  ]
]

-- The reset time that the account has calls for a refresh.
abbrev pub Calls : SchedulerState → RefreshableAccount → ℤ → Type 0
Calls s account now =
    (last : ℤ) × (reset : ℤ) × (get account.id s.last_refresh_reset ≡ some last)
    × (account.rate_limit_reset ≡ some reset)
    × ((leb_ℤ reset now ≡ true) ⊎ (ltb_ℤ last reset ≡ true))

or_split : (a b : Bool) → (a || b) ≡ true → (a ≡ true) ⊎ (b ≡ true)
or_split true b h = inl refl
or_split false b h = inr h

or_join : (a b : Bool) → (a ≡ true) ⊎ (b ≡ true) → (a || b) ≡ true
or_join a b (inl h) = ground (arith, h)
or_join a b (inr h) = ground (arith, h)

wanted :
    (s : SchedulerState) (account : RefreshableAccount) (now : ℤ)
    → should_refresh s account now ≡ true
    → (get account.id s.last_refresh_reset ≡ none) ⊎ Calls s account now
unfolding should_refresh
wanted s account now h = elim (Option-cases (get account.id s.last_refresh_reset)) [
  | inl q ↦ inl q
  | inr (last, q) ↦ elim (Option-cases account.rate_limit_reset) [
    | inl r ↦ absurd (ground (arith, q, r, h))
    | inr (reset, r) ↦
        let called : due reset last now ≡ true = ground (arith, q, r, h) in
        inr (last, reset, q, r, or_split _ _ (sym (due_lem reset last now) ∙ called))
  ]
]

unwanted :
    (s : SchedulerState) (account : RefreshableAccount) (now : ℤ)
    → (get account.id s.last_refresh_reset ≡ none) ⊎ Calls s account now
    → should_refresh s account now ≡ true
unfolding should_refresh
unwanted s account now (inl q) = rw (q, should_refresh) refl
unwanted s account now (inr (last, reset, q, r, c)) =
    let called : due reset last now ≡ true = due_lem reset last now ∙ or_join _ _ c in
    ground (arith, q, r, called)

-- An account is refreshed exactly when none of its resets was recorded, or its reset time has passed
-- or is later than the recorded one: the test for a stale reset time adds nothing.
pub should_refresh_iff :
    (s : SchedulerState) (account : RefreshableAccount) (now : ℤ)
    → (should_refresh s account now ≡ true)
      ↔ ((get account.id s.last_refresh_reset ≡ none) ⊎ Calls s account now)
should_refresh_iff s account now = (wanted s account now, unwanted s account now)
