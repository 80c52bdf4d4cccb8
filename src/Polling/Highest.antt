-- ===== src/Polling/Highest.antt =====
-- What the balancer reads of Anthropic's usage data, crates/providers/src/usage_polling.rs.
use better_ccflare_rs.Base.{
  ap, sym, ◌∙◌, subst, and_then, any, all, map, any-In, In-any, str_eq, if◌then◌else◌, ◌&&◌, ◌↔◌,
  Option-cases, String, ◌≡◌, refl, ◌⊎◌, inl, inr, Bool, true, false, Option, none, some, List, [],
  ◌∷◌, ◌++◌, arith, Bool-cases, In, All,
}
use better_ccflare_rs.Base.Int.{ℤ}
use better_ccflare_rs.Base.Float.{F64}
use better_ccflare_rs.Base.Double.{ltb_f, leb_f, lit, ◌*f◌}
use better_ccflare_rs.Account.{RoutingUsageInfo, WindowUsage, WindowKind}
use better_ccflare_rs.Polling.{
  UsageEntry, utilizations, kind_of, AnthropicUsageData, window_of, collect, anthropic_routing_info,
  fractional_mode, zero_f,
}

-- No window is above a utilization.
abbrev pub NoneAbove : F64 → List WindowUsage → Type 0
NoneAbove best = All (λ w. ltb_f best w.utilization_pct ≡ false)

-- The utilization and the reset are those of one of the windows, or nothing was above zero.
abbrev pub Source : F64 → Option ℤ → List WindowUsage → Type 0
Source best reset windows =
    ((best ≡ zero_f) × (reset ≡ none))
    ⊎ ((w : WindowUsage) × In w windows × (w.utilization_pct ≡ best) × (w.resets_at_ms ≡ reset))

raised : (a b x : F64) → ltb_f a b ≡ true → ltb_f a x ≡ false → ltb_f b x ≡ false
raised a b x h k = ground (arith, h, k)

irreflexive : (a : F64) → ltb_f a a ≡ false
irreflexive a = ground arith

NoneAbove-raised :
    (a b : F64) (ws : List WindowUsage) → ltb_f a b ≡ true → NoneAbove a ws → NoneAbove b ws
NoneAbove-raised a b [] h k = tt
NoneAbove-raised a b (w ∷ ws) h k =
    (raised a b w.utilization_pct h k.0, NoneAbove-raised a b ws h k.1)

NoneAbove-snoc :
    (a : F64) (ws : List WindowUsage) (w : WindowUsage)
    → NoneAbove a ws
    → ltb_f a w.utilization_pct ≡ false
    → NoneAbove a (ws ++ (w ∷ []))
NoneAbove-snoc a [] w h k = (k, tt)
NoneAbove-snoc a (v ∷ ws) w h k = (h.0, NoneAbove-snoc a ws w h.1 k)

In-last : (w : WindowUsage) (ws : List WindowUsage) → In w (ws ++ (w ∷ []))
In-last w [] = inl refl
In-last w (v ∷ ws) = inr (In-last w ws)

In-snoc : (v w : WindowUsage) (ws : List WindowUsage) → In v ws → In v (ws ++ (w ∷ []))
In-snoc v w [] i = absurd i
In-snoc v w (u ∷ ws) (inl e) = inl e
In-snoc v w (u ∷ ws) (inr i) = inr (In-snoc v w ws i)

Source-snoc :
    (best : F64) (reset : Option ℤ) (ws : List WindowUsage) (w : WindowUsage)
    → Source best reset ws
    → Source best reset (ws ++ (w ∷ []))
Source-snoc best reset ws w (inl z) = inl z
Source-snoc best reset ws w (inr (v, i, e, r)) = inr (v, In-snoc v w ws i, e, r)

abbrev Sound : RoutingUsageInfo → Type 0
Sound info =
    NoneAbove info.utilization_pct info.windows
    × Source info.utilization_pct info.resets_at_ms info.windows

collect-Sound :
    (parse_time : String → Option ℤ) (fractional : Bool) (entries : AnthropicUsageData)
    → (best : F64) (reset : Option ℤ) (ws : List WindowUsage) → NoneAbove best ws
    → Source best reset ws
    → Sound (collect parse_time fractional entries best reset ws)
unfolding collect
collect-Sound parse_time fractional [] best reset ws n s = (n, s)
collect-Sound parse_time fractional (e ∷ entries) best reset ws n s =
    elim (Option-cases (window_of parse_time fractional e)) [
      | inl q ↦ rw (q, collect) (collect-Sound parse_time fractional entries best reset ws n s)
      | inr (w, q) ↦ elim (Bool-cases (ltb_f best w.utilization_pct)) [
        | inl b ↦
            rw (q, collect)
              (rw b (
                collect-Sound parse_time fractional entries w.utilization_pct w.resets_at_ms
                  (ws ++ (w ∷ []))
                  (NoneAbove-snoc w.utilization_pct ws w
                    (NoneAbove-raised best w.utilization_pct ws b n)
                    (irreflexive w.utilization_pct))
                  (inr (w, In-last w ws, refl, refl))))
        | inr b ↦
            rw (q, collect)
              (rw b (
                collect-Sound parse_time fractional entries best reset (ws ++ (w ∷ []))
                  (NoneAbove-snoc best ws w n b) (Source-snoc best reset ws w s)))
      ]
    ]

-- The windows of the entries that have a utilization, in order.
abbrev windows_of : (String → Option ℤ) → Bool → AnthropicUsageData → List WindowUsage
windows_of parse_time fractional [] = []
windows_of parse_time fractional (e ∷ entries) = elim (window_of parse_time fractional e) [
  | none ↦ windows_of parse_time fractional entries
  | some w ↦ w ∷ windows_of parse_time fractional entries
]

append-snoc : (ws vs : List WindowUsage) (w : WindowUsage) → (ws ++ (w ∷ [])) ++ vs ≡ ws ++ (w ∷ vs)
append-snoc [] vs w = refl
append-snoc (u ∷ ws) vs w = ap (◌∷◌ u) (append-snoc ws vs w)

append-nil : (ws : List WindowUsage) → ws ++ [] ≡ ws
append-nil [] = refl
append-nil (w ∷ ws) = ap (◌∷◌ w) (append-nil ws)

collect-windows :
    (parse_time : String → Option ℤ) (fractional : Bool) (entries : AnthropicUsageData)
    → (best : F64) (reset : Option ℤ) (ws : List WindowUsage)
    → (collect parse_time fractional entries best reset ws).windows
      ≡ ws ++ windows_of parse_time fractional entries
unfolding collect
collect-windows parse_time fractional [] best reset ws = sym (append-nil ws)
collect-windows parse_time fractional (e ∷ entries) best reset ws =
    elim (Option-cases (window_of parse_time fractional e)) [
      | inl q ↦
          rw (q, collect, windows_of) (collect-windows parse_time fractional entries best reset ws)
      | inr (w, q) ↦
          rw (q, collect, windows_of)
            (collect-windows parse_time fractional entries
                (if ltb_f best w.utilization_pct then w.utilization_pct else best)
                (if ltb_f best w.utilization_pct then w.resets_at_ms else reset) (ws ++ (w ∷ []))
              ∙ append-snoc ws (windows_of parse_time fractional entries) w)
    ]

-- The entries that have a utilization, with it.
abbrev pub rated : AnthropicUsageData → List (UsageEntry × F64)
rated [] = []
rated (e ∷ entries) = elim e.utilization [ none ↦ rated entries | some u ↦ (e, u) ∷ rated entries ]

-- Some utilization is above zero, and all are at most one.
abbrev pub Fractions : AnthropicUsageData → Type 0
Fractions entries =
    ((r : UsageEntry × F64) × In r (rated entries) × (ltb_f zero_f r.1 ≡ true))
    × All (λ r. leb_f r.1 (lit 1 1) ≡ true) (rated entries)

-- The kind of a window by the name of its entry.
abbrev pub KindOf : String → WindowKind → Type 0
KindOf key WindowKind.five_hour = str_eq key "five_hour" ≡ true
KindOf key WindowKind.weekly =
    (str_eq key "five_hour" ≡ false)
    × (any (str_eq key) ("seven_day" ∷ "seven_day_opus" ∷ "seven_day_sonnet" ∷ []) ≡ true)
KindOf key WindowKind.other =
    (str_eq key "five_hour" ≡ false)
    × (any (str_eq key) ("seven_day" ∷ "seven_day_opus" ∷ "seven_day_sonnet" ∷ []) ≡ false)

abbrev pub percent : Bool → F64 → F64
percent true u = u *f lit 100 1
percent false u = u

-- Each rated entry has its window, in order: its kind, its utilization in percent, and the time of
-- its reset where that can be read.
abbrev pub Mirrors :
    (String → Option ℤ) → Bool → List (UsageEntry × F64) → List WindowUsage → Type 0
Mirrors parse_time fractions [] [] = Unit {0}
Mirrors parse_time fractions [] (w ∷ ws) = ⊥
Mirrors parse_time fractions (r ∷ rs) [] = ⊥
Mirrors parse_time fractions (r ∷ rs) (w ∷ ws) =
    KindOf r.0.key w.kind
    × (w.utilization_pct ≡ percent fractions r.1)
    × (w.resets_at_ms ≡ and_then r.0.resets_at parse_time)
    × Mirrors parse_time fractions rs ws

kind_of-KindOf : (key : String) → KindOf key (kind_of key)
unfolding kind_of
kind_of-KindOf key = elim (Bool-cases (str_eq key "five_hour")) [
  | inl f ↦ rw f f
  | inr f ↦
      elim (Bool-cases
        (any (str_eq key) ("seven_day" ∷ "seven_day_opus" ∷ "seven_day_sonnet" ∷ []))) [
          | inl w ↦ rw (f, w) (f, w)
          | inr w ↦ rw (f, w) (f, w)
        ]
]

percent_lem : (b : Bool) (u : F64) → (if b then u *f lit 100 1 else u) ≡ percent b u
percent_lem true u = refl
percent_lem false u = refl

windows_of-Mirrors :
    (parse_time : String → Option ℤ) (fractions : Bool) (entries : AnthropicUsageData)
    → Mirrors parse_time fractions (rated entries) (windows_of parse_time fractions entries)
unfolding window_of
windows_of-Mirrors parse_time fractions [] = tt
windows_of-Mirrors parse_time fractions (e ∷ entries) = elim (Option-cases e.utilization) [
  | inl q ↦ rw q (windows_of-Mirrors parse_time fractions entries)
  | inr (u, q) ↦ rw q (
    kind_of-KindOf e.key,
    percent_lem fractions u,
    refl,
    windows_of-Mirrors parse_time fractions entries,
  )
]

utilizations-rated :
    (entries : AnthropicUsageData) → utilizations entries ≡ map (λ r. r.1) (rated entries)
unfolding utilizations
utilizations-rated [] = refl
utilizations-rated (e ∷ entries) = elim (Option-cases e.utilization) [
  | inl q ↦ rw q (utilizations-rated entries)
  | inr (u, q) ↦ rw q (ap (◌∷◌ u) (utilizations-rated entries))
]

any_rated :
    (rs : List (UsageEntry × F64))
    → (any (ltb_f zero_f) (map (λ r. r.1) rs) ≡ true)
      ↔ ((r : UsageEntry × F64) × In r rs × (ltb_f zero_f r.1 ≡ true))
any_rated rs = (
  λ h. any-In (λ r. ltb_f zero_f r.1) rs (same rs ∙ h),
  λ x. sym (same rs) ∙ In-any (λ r. ltb_f zero_f r.1) x.0 rs x.1 x.2,
)
  where
    same :
        (rs : List (UsageEntry × F64))
        → any (λ r. ltb_f zero_f r.1) rs ≡ any (ltb_f zero_f) (map (λ r. r.1) rs)
    same [] = refl
    same (r ∷ rs) = rw (same rs) refl

all_rated :
    (rs : List (UsageEntry × F64))
    → (all (λ u. leb_f u (lit 1 1)) (map (λ r. r.1) rs) ≡ true)
      ↔ All (λ r. leb_f r.1 (lit 1 1) ≡ true) rs
all_rated [] = (λ h. tt, λ h. refl)
all_rated (r ∷ rs) =
    let (f, g) = all_rated rs in
    let one : Bool = leb_f r.1 (lit 1 1) in
    let others : Bool = all (λ u. leb_f u (lit 1 1)) (map (λ s. s.1) rs) in
    (λ h. ((both one others h).0, f (both one others h).1), λ h. and_true one others h.0 (g h.1))
  where
    both : (a b : Bool) → (a && b) ≡ true → (a ≡ true) × (b ≡ true)
    both a b h = ground arith

    and_true : (a b : Bool) → a ≡ true → b ≡ true → (a && b) ≡ true
    and_true a b h k = ground arith

fractional_mode_iff :
    (entries : AnthropicUsageData) → (fractional_mode entries ≡ true) ↔ Fractions entries
unfolding fractional_mode
fractional_mode_iff entries = rw (utilizations-rated entries) (
    joined (any (ltb_f zero_f) (map (λ r. r.1) (rated entries)))
      (all (λ u. leb_f u (lit 1 1)) (map (λ r. r.1) (rated entries))) _ _
      (any_rated (rated entries)) (all_rated (rated entries)))
  where
    joined :
        (a b : Bool) (P Q : Type 0) → (a ≡ true) ↔ P → (b ≡ true) ↔ Q → ((a && b) ≡ true) ↔ (P × Q)
    joined true true P Q f g = (λ h. (f.0 refl, g.0 refl), λ h. refl)
    joined true false P Q f g = (λ h. cc, λ h. g.1 h.1)
    joined false b P Q f g = (λ h. cc, λ h. f.1 h.0)

-- The routing info of Anthropic's usage data is always there. It has one window for each entry with
-- a utilization, in order, with the entry's kind and reset, and its utilization times 100 exactly
-- when some of them are above zero and all at most one. No window is above the utilization of the
-- info, which is with its reset that of one of the windows, or zero without a reset.
pub routing_highest :
    (parse_time : String → Option ℤ) (entries : AnthropicUsageData)
    → (info : RoutingUsageInfo) × (fractions : Bool) × (anthropic_routing_info parse_time entries
        ≡ some info)
      × ((fractions ≡ true) ↔ Fractions entries)
      × Mirrors parse_time fractions (rated entries) info.windows
      × NoneAbove info.utilization_pct info.windows
      × Source info.utilization_pct info.resets_at_ms info.windows
unfolding anthropic_routing_info
routing_highest parse_time entries =
    let fractions = fractional_mode entries in
    let (n, s) = collect-Sound parse_time fractions entries zero_f none [] tt (inl (refl, refl)) in
    let mirrors =
      subst (Mirrors parse_time fractions (rated entries))
        (sym (collect-windows parse_time fractions entries zero_f none []))
        (windows_of-Mirrors parse_time fractions entries) in
    (
      collect parse_time fractions entries zero_f none [],
      fractions,
      refl,
      fractional_mode_iff entries,
      mirrors,
      n,
      s,
    )
