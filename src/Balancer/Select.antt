-- ===== src/Balancer/Select.antt =====
-- `select` of crates/load-balancer/src/lib.rs: which accounts it hands out.
use mathlib.Core.List.{Perm}
use native.Mathlib.Nat.{mod-lt}
use mathlib.Core.List.Perm
use better_ccflare_rs.Base.{
  filter-In, Yields, ◌≡◌, refl, inl, inr, true, false, Option, some, List, [], ◌∷◌, arith, In, All,
  All-In, Bool-cases, find, str_eq, In-filter, find-In, get_elem?-In, subst, All-of_In, or_else,
  Yields, Ensures, Yields-or_else, Yields-mono, Ensures-and_then, Ensures-of, length, ◌<◌,
  get_elem?-lt,
}
use better_ccflare_rs.Base.Int.{ℤ}
use better_ccflare_rs.Base.Sort.{sort_by-All}
use better_ccflare_rs.Account.{Account, UsageMap}
use better_ccflare_rs.Balancer.{
  eq_ℤ, serve_forced, serve_active, session_key, ltb_ℤ, SelectionMeta, SessionStrategy, Selection,
  is_account_available, select_forced, select_fallback, select_active, select_tier, select,
  available_accounts, top_tier, choose_index, active_account, max_by_session, latest_session,
  check_auto_fallback_accounts, by_priority, has_active_session,
}
use better_ccflare_rs.Balancer.Order.{sort_accounts_sound}
use better_ccflare_rs.Balancer.Pool.{Distinct}
use better_ccflare_rs.Balancer.Leading.{
  ids, serving, lead_with-perm, available-Distinct, take_chosen-perm,
}

-- What a selection must hold: each serving account once, and no other.
abbrev pub Covers : List Account → UsageMap → ℤ → Selection → Type 0
Covers accounts usage now r = Perm (ids r.accounts) (ids (serving accounts usage now))

serve_forced-Covers :
    (s : SessionStrategy) (accounts : List Account) (usage : UsageMap) (meta : SelectionMeta)
    (now : ℤ) (a : Account)
    → Distinct accounts
    → meta.force_account_strict ≡ false
    → In a accounts
    → Ensures (Covers accounts usage now) (serve_forced s accounts usage meta now a)
unfolding serve_forced
serve_forced-Covers s accounts usage meta now a d soft i =
    elim (Bool-cases (is_account_available a usage now)) [
      | inl up ↦
          simp (up, soft)
            (lead_with-perm s accounts usage meta now a d (filter-In _ a accounts i up))
      | inr down ↦ simp (down, soft) tt
    ]

select_forced-Covers :
    (s : SessionStrategy) (accounts : List Account) (usage : UsageMap) (meta : SelectionMeta)
    (now : ℤ)
    → Distinct accounts
    → meta.force_account_strict ≡ false
    → Ensures (Covers accounts usage now) (select_forced s accounts usage meta now)
unfolding select_forced
select_forced-Covers s accounts usage meta now d soft =
    (Ensures-and_then (λ f. Unit {0}) _ meta.force_account_id _
      (Ensures-of _ meta.force_account_id (λ f e. tt))
      (λ f _.
        Ensures-and_then (λ a. In a accounts) _ (find (λ a. str_eq a.id f) accounts) _
          (Ensures-of _ _ (λ a e. (find-In _ accounts a e).0))
          (λ a. serve_forced-Covers s accounts usage meta now a d soft)))

-- Every fallback account is a serving one.
fallback-serving :
    (accounts : List Account) (usage : UsageMap) (now : ℤ)
    → All (λ a. In a (serving accounts usage now)) (check_auto_fallback_accounts accounts usage now)
unfolding check_auto_fallback_accounts
fallback-serving accounts usage now =
    sort_by-All by_priority (λ a. In a (serving accounts usage now)) _
      (All-of_In _ _ (λ a i.
        let (j, p) = In-filter _ a accounts i in
        filter-In (λ b. is_account_available b usage now) a accounts j (ground arith)))

select_fallback-Covers :
    (s : SessionStrategy) (accounts : List Account) (usage : UsageMap) (meta : SelectionMeta)
    (now : ℤ)
    → Distinct accounts
    → Ensures (Covers accounts usage now) (select_fallback s accounts usage meta now)
unfolding select_fallback
select_fallback-Covers s accounts usage meta now d =
    Ensures-and_then (λ a. In a (serving accounts usage now)) _ _ _
      (Ensures-of _ _
        (λ a e. All-In _ a _ (fallback-serving accounts usage now) (get_elem?-In _ 0 a e)))
      (λ a. lead_with-perm s accounts usage meta now a d)

max_by_session-holds :
    (P : Account → Type 0) (best : Account) (xs : List Account)
    → P best
    → All P xs
    → P (max_by_session best xs)
unfolding max_by_session
max_by_session-holds P best [] p h = p
max_by_session-holds P best (x ∷ xs) p h =
    elim (Bool-cases (ltb_ℤ (session_key x) (session_key best))) [
      | inl e ↦ rw e (max_by_session-holds P best xs p h.1)
      | inr e ↦ rw e (max_by_session-holds P x xs h.0 h.1)
    ]

latest_session-In : (xs : List Account) → Ensures (λ a. In a xs) (latest_session xs)
latest_session-In [] = tt
latest_session-In (x ∷ xs) =
    max_by_session-holds (λ a. In a (x ∷ xs)) x xs (inl refl) (All-of_In _ xs (λ a i. inr i))

pub active_account-In :
    (s : SessionStrategy) (accounts : List Account) (now : ℤ) (a : Account)
    → active_account s accounts now ≡ some a
    → In a accounts × (has_active_session s.session_duration_ms a now ≡ true)
unfolding active_account
active_account-In s accounts now a e = In-filter _ a accounts (In-latest _ (latest_session-In _) e)
  where
    In-latest :
        (xs : List Account) {o : Option Account} → Ensures (λ b. In b xs) o → o ≡ some a → In a xs
    In-latest xs {o} h e = subst (Ensures (λ b. In b xs)) e h

serve_active-Covers :
    (s : SessionStrategy) (accounts : List Account) (usage : UsageMap) (meta : SelectionMeta)
    (now : ℤ) (a : Account)
    → Distinct accounts
    → In a accounts
    → Ensures (Covers accounts usage now) (serve_active s accounts usage meta now a)
unfolding serve_active
serve_active-Covers s accounts usage meta now a d i =
    elim (Bool-cases (is_account_available a usage now)) [
      | inl up ↦
          simp up (lead_with-perm s accounts usage meta now a d (filter-In _ a accounts i up))
      | inr down ↦ simp down tt
    ]

select_active-Covers :
    (s : SessionStrategy) (accounts : List Account) (usage : UsageMap) (meta : SelectionMeta)
    (now : ℤ)
    → Distinct accounts
    → Ensures (Covers accounts usage now) (select_active s accounts usage meta now)
unfolding select_active
select_active-Covers s accounts usage meta now d =
    Ensures-and_then (λ a. In a accounts) _ _ _
      (Ensures-of _ _ (λ a e. (active_account-In s accounts now a e).0))
      (λ a. serve_active-Covers s accounts usage meta now a d)

-- The first tier holds its leading account, so the index that is chosen lies within it.
pub choose_index-lt :
    (s : SessionStrategy) (tier : List Account)
    → 0 < length tier
    → (choose_index s tier).0 < length tier
unfolding choose_index
choose_index-lt s tier h = ground (arith, mod-lt s.round_robin_counter h)

pub top_tier_pos : (top : Account) (rest : List Account) → 0 < length (top_tier top (top ∷ rest))
top_tier_pos top rest = ground arith

select_tier-Covers :
    (s : SessionStrategy) (meta : SelectionMeta) (now : ℤ) (xs : List Account)
    → Distinct xs
    → Yields (λ r. Perm (ids r.accounts) (ids xs)) (select_tier s meta now xs)
unfolding select_tier
select_tier-Covers s meta now [] d = Perm.refl []
select_tier-Covers s meta now (top ∷ rest) d =
    let tier = top_tier top (top ∷ rest) in
    let (i, t) = choose_index s tier in
    let (a, e) = get_elem?-lt tier i (choose_index-lt s tier (top_tier_pos top rest)) in
    rw e (
      take_chosen-perm t meta now (top ∷ rest) a d
        (In-filter (λ b. eq_ℤ b.priority top.priority) a (top ∷ rest) (get_elem?-In tier i a e)).0)

select_tier-serving :
    (s : SessionStrategy) (accounts : List Account) (usage : UsageMap) (meta : SelectionMeta)
    (now : ℤ)
    → Distinct accounts
    → Yields
        (Covers accounts usage now)
        (select_tier s meta now (available_accounts accounts usage now))
select_tier-serving s accounts usage meta now d =
    Yields-mono (λ r. Perm (ids r.accounts) (ids (available_accounts accounts usage now)))
      (Covers accounts usage now) (select_tier s meta now (available_accounts accounts usage now))
      (λ r p.
        Perm.trans p
          (Perm.map (λ a. a.id) (sort_accounts_sound (serving accounts usage now) usage).0))
      (select_tier-Covers s meta now _ (available-Distinct accounts usage now d))

-- Whatever the load balancer decides, it answers, and its answer lists every account that may be
-- routed to exactly once and no other: with distinct ids, and unless a strict force is asked for.
pub select-Covers :
    (s : SessionStrategy) (accounts : List Account) (usage : UsageMap) (meta : SelectionMeta)
    (now : ℤ)
    → Distinct accounts
    → meta.force_account_strict ≡ false
    → Yields (Covers accounts usage now) (select s accounts usage meta now)
unfolding select
select-Covers s accounts usage meta now d soft =
    let covers : Selection → Type 0 = Covers accounts usage now in
    let active = select_active s accounts usage meta now in
    let tier = select_tier s meta now (available_accounts accounts usage now) in
    Yields-or_else covers (select_forced s accounts usage meta now)
      (or_else (select_fallback s accounts usage meta now) (or_else active tier))
      (select_forced-Covers s accounts usage meta now d soft)
      (Yields-or_else covers (select_fallback s accounts usage meta now) (or_else active tier)
        (select_fallback-Covers s accounts usage meta now d)
        (Yields-or_else covers active tier (select_active-Covers s accounts usage meta now d)
          (select_tier-serving s accounts usage meta now d)))
