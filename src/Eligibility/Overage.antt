-- ===== src/Eligibility/Overage.antt =====
-- The overage rule of crates/core/src/account_eligibility.rs, stated over the windows.
use better_ccflare_rs.Base.{
  ◌≡◌, refl, ◌≢◌, ◌↔◌, ◌⊎◌, inl, inr, Bool, true, false, List, [], ◌∷◌, arith, In, any-In, In-any,
  In-filter, filter-In, filter, any,
}
use better_ccflare_rs.Base.Int.{pos}
use better_ccflare_rs.Account.{Account, WindowKind, five_hour, WindowUsage, RoutingUsageInfo}
use better_ccflare_rs.Eligibility.{
  reaches, is_anthropic_family, is_five_hour, is_other, is_empty, five_hour_exhausted,
  five_hour_known, blocks_overage, is_at_overage,
}

-- A window at 100 %, or with no number to go by.
abbrev pub Saturated : WindowUsage → Type 0
Saturated w = reaches w.utilization_pct (pos 100) ≡ true

-- No five-hour window is reported, or one of them is saturated.
abbrev pub FiveHourSpent : List WindowUsage → Type 0
FiveHourSpent ws =
    ((v : WindowUsage) → In v ws → v.kind ≢ five_hour)
    ⊎ ((v : WindowUsage) × In v ws × (v.kind ≡ five_hour) × Saturated v)

-- A saturated window blocks; the extra-usage window of an Anthropic account does so only where the
-- five-hour budget is spent or no five-hour window is reported.
pub record Exhausts (account : Account) (info : RoutingUsageInfo) (w : WindowUsage) : Type 0 where
  pub listed : In w info.windows
  pub saturated : Saturated w
  pub spent :
      is_anthropic_family account.provider ≡ true
      → w.kind ≡ WindowKind.other
      → FiveHourSpent info.windows

is_five_hour_iff : (k : WindowKind) → (is_five_hour k ≡ true) ↔ (k ≡ five_hour)
is_five_hour_iff k = ground arith

is_five_hour_no : (k : WindowKind) → k ≢ five_hour → is_five_hour k ≡ false
is_five_hour_no k h = ground arith

is_other_iff : (k : WindowKind) → (is_other k ≡ true) ↔ (k ≡ WindowKind.other)
is_other_iff k = ground arith

-- The two flags that the code computes first mean `FiveHourSpent`.
pub spent_of_flags :
    (ws : List WindowUsage)
    → (five_hour_known ws ≡ false) ⊎ (five_hour_exhausted ws ≡ true)
    → FiveHourSpent ws
unfolding five_hour_known five_hour_exhausted
spent_of_flags ws (inl h) = inl (λ v i e.
    not_listed v _ (filter-In (λ w. is_five_hour w.kind) v ws i ((is_five_hour_iff v.kind).1 e))
      (empty_of ws h))
  where
    empty_of :
        (ws : List WindowUsage)
        → five_hour_known ws ≡ false
        → filter (λ w. is_five_hour w.kind) ws ≡ []
    empty_of ws h = ground arith

    not_listed : (v : WindowUsage) (vs : List WindowUsage) → In v vs → vs ≡ [] → ⊥
    not_listed v [] i e = i
    not_listed v (x ∷ xs) i e = cc
spent_of_flags ws (inr h) =
    let (v, i, s) = any-In (λ w. reaches w.utilization_pct (pos 100)) _ h in
    let (j, k) = In-filter (λ w. is_five_hour w.kind) v ws i in
    inr (v, j, (is_five_hour_iff v.kind).0 k, s)

pub flags_of_spent :
    (ws : List WindowUsage)
    → FiveHourSpent ws
    → (five_hour_known ws ≡ false) ⊎ (five_hour_exhausted ws ≡ true)
unfolding five_hour_known five_hour_exhausted
flags_of_spent ws (inl h) = inl (rw (none_left ws h))
  where
    none_left :
        (vs : List WindowUsage)
        → ((v : WindowUsage) → In v vs → v.kind ≢ five_hour)
        → filter (λ w. is_five_hour w.kind) vs ≡ []
    none_left [] h = refl
    none_left (v ∷ vs) h =
        rw (is_five_hour_no v.kind (h v (inl refl))) (none_left vs (λ u i. h u (inr i)))
flags_of_spent ws (inr (v, i, k, s)) = inr (
    In-any (λ w. reaches w.utilization_pct (pos 100)) v _
      (filter-In (λ w. is_five_hour w.kind) v ws i ((is_five_hour_iff v.kind).1 k)) s)

pub blocks_overage_iff :
    (family known spent : Bool) (w : WindowUsage)
    → (blocks_overage family known spent w ≡ true) ↔ (
        Saturated w
        × (family ≡ true → w.kind ≡ WindowKind.other → (known ≡ false) ⊎ (spent ≡ true)))
unfolding blocks_overage
blocks_overage_iff family known spent w = ground arith

-- With per-window data an account is over its budget exactly when some listed window is saturated,
-- which for the extra-usage window of an Anthropic account counts only where a five-hour window is
-- saturated too or none is reported.
pub is_at_overage_iff :
    (account : Account) (info : RoutingUsageInfo)
    → info.windows ≢ []
    → (is_at_overage account info ≡ true) ↔ ((w : WindowUsage) × Exhausts account info w)
unfolding is_at_overage
is_at_overage_iff account info h = rw (nonempty info.windows h) (sound, complete)
  where
    nonempty : (ws : List WindowUsage) → ws ≢ [] → is_empty ws ≡ false
    nonempty [] h = absurd (h refl)
    nonempty (w ∷ ws) h = refl

    family : Bool
    family = is_anthropic_family account.provider

    test : WindowUsage → Bool
    test = blocks_overage family (five_hour_known info.windows) (five_hour_exhausted info.windows)

    sound : any test info.windows ≡ true → (w : WindowUsage) × Exhausts account info w
    sound g =
        let (w, i, t) = any-In test info.windows g in
        let (s, r) = (blocks_overage_iff family _ _ w).0 t in
        (w, record { listed = i; saturated = s; spent = λ f k. spent_of_flags _ (r f k) })

    complete : ((w : WindowUsage) × Exhausts account info w) → any test info.windows ≡ true
    complete (w, x) =
        In-any test w info.windows x.listed
          ((blocks_overage_iff family _ _ w).1 (x.saturated, λ f k. flags_of_spent _ (x.spent f k)))
