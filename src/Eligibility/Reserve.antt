-- ===== src/Eligibility/Reserve.antt =====
-- The reserve rule of crates/core/src/account_eligibility.rs.
use better_ccflare_rs.Base.{
  Option-cases, ◌≡◌, refl, inl, inr, Bool, true, false, List, [], ◌∷◌, some, arith,
}
use better_ccflare_rs.Base.Int.{ℤ, pos, ◌≤ℤ◌, saturate_i64, ◌-ℤ◌, max_ℤ}
use better_ccflare_rs.Base.Float.{F64, ge_int_mono}
use better_ccflare_rs.Account.{
  UsageMap, Account, WindowKind, five_hour, weekly, WindowUsage, RoutingUsageInfo,
}
use better_ccflare_rs.Eligibility.{
  is_at_reserve, reaches, trips, window_threshold, reserve_loop, reserve_of_info,
  five_hour_exhausted,
}

reaches_mono : (u : F64) (m n : ℤ) → m ≤ℤ n → reaches u n ≡ true → reaches u m ≡ true
unfolding reaches
reaches_mono u m n h r = ground (arith, ge_int_mono u m n h)

-- A larger reserve trips wherever a smaller one does.
trips_mono : (s t : ℤ) (u : F64) → s ≤ℤ t → trips (some s) u ≡ true → trips (some t) u ≡ true
unfolding trips ◌-ℤ◌
trips_mono s t u h r = ground (
  arith,
  reaches_mono u (max_ℤ (saturate_i64 (pos 100 -ℤ t)) (pos 0))
      (max_ℤ (saturate_i64 (pos 100 -ℤ s)) (pos 0)),
)

module _ (a b : Account) (same : b.provider ≡ a.provider) (h5 : a.reserve_5h ≤ℤ b.reserve_5h)
    (hw : a.reserve_weekly ≤ℤ b.reserve_weekly) where
  window_mono :
      (full : Bool) (k : WindowKind) (u : F64)
      → trips (window_threshold a full k) u ≡ true
      → trips (window_threshold b full k) u ≡ true
  unfolding window_threshold
  window_mono full five_hour u h = trips_mono a.reserve_5h b.reserve_5h u h5 h
  window_mono full weekly u h = trips_mono a.reserve_weekly b.reserve_weekly u hw h
  window_mono full WindowKind.other u h =
      rw same (ground (arith, trips_mono a.reserve_5h b.reserve_5h u h5))

  loop_mono :
      (full : Bool) (ws : List WindowUsage)
      → reserve_loop a full ws ≡ true
      → reserve_loop b full ws ≡ true
  unfolding reserve_loop
  loop_mono full [] h = h
  loop_mono full (w ∷ ws) h =
      ground (arith, window_mono full w.kind w.utilization_pct, loop_mono full ws)

  info_mono :
      (info : RoutingUsageInfo) → reserve_of_info a info ≡ true → reserve_of_info b info ≡ true
  unfolding reserve_of_info ◌-ℤ◌
  info_mono info h = ground (
    arith,
    loop_mono (five_hour_exhausted info.windows) info.windows,
    reaches_mono info.utilization_pct (pos 100 -ℤ max_ℤ b.reserve_5h b.reserve_weekly)
        (pos 100 -ℤ max_ℤ a.reserve_5h a.reserve_weekly),
  )

-- With no reserve set nothing trips.
module _ (a : Account) (z5 : a.reserve_5h ≡ pos 0) (zw : a.reserve_weekly ≡ pos 0) where
  zero_window :
      (full : Bool) (k : WindowKind) (u : F64) → trips (window_threshold a full k) u ≡ false
  unfolding trips window_threshold
  zero_window full k u = ground arith

  loop_zero : (full : Bool) (ws : List WindowUsage) → reserve_loop a full ws ≡ false
  unfolding reserve_loop
  loop_zero full [] = refl
  loop_zero full (w ∷ ws) =
      ground (arith, loop_zero full ws, zero_window full w.kind w.utilization_pct)

  reserve_zero : (info : RoutingUsageInfo) → reserve_of_info a info ≡ false
  unfolding reserve_of_info
  reserve_zero info = ground (arith, loop_zero (five_hour_exhausted info.windows) info.windows)

reserve_reported :
    (a : Account) (usage : UsageMap)
    → is_at_reserve a usage ≡ true
    → (info : RoutingUsageInfo) × (usage a.id ≡ some info) × (reserve_of_info a info ≡ true)
unfolding is_at_reserve
reserve_reported a usage h = elim (Option-cases (usage a.id)) [
  | inl e ↦ absurd (ground (arith, e))
  | inr (info, e) ↦ (info, e, ground (arith, e))
]

-- Raising an account's reserves, with its id and provider as they are, never takes it out of the
-- reserve.
pub is_at_reserve_mono :
    (a b : Account) (usage : UsageMap)
    → b.id ≡ a.id
    → b.provider ≡ a.provider
    → a.reserve_5h ≤ℤ b.reserve_5h
    → a.reserve_weekly ≤ℤ b.reserve_weekly
    → is_at_reserve a usage ≡ true
    → is_at_reserve b usage ≡ true
unfolding is_at_reserve
is_at_reserve_mono a b usage i p h5 hw h =
    let (info, u, r) = reserve_reported a usage h in
    ground (arith, i, u, info_mono a b p h5 hw info r, zero_case info)
  where
    zero_case :
        (info : RoutingUsageInfo)
        → b.reserve_5h ≡ pos 0
        → b.reserve_weekly ≡ pos 0
        → reserve_of_info b info ≡ false
    zero_case info z5 zw = reserve_zero b z5 zw info
