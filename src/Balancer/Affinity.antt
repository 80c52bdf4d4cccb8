-- ===== src/Balancer/Affinity.antt =====
-- `select` of crates/load-balancer/src/lib.rs: running sessions and priorities.
use better_ccflare_rs.Base.{
  ◌⊎◌, inl, inr, Bool-cases, false, In, filter-In, if◌then◌else◌, ◌≡◌, refl, true, none, some, List,
  [], ◌∷◌, arith, All, filter, Yields, All-of_In, All-In, In-filter, get_elem?-In, get_elem?-lt,
  subst,
}
use better_ccflare_rs.Base.Int.{ℤ, ◌≤ℤ◌, eq_ℤ, ltb_ℤ}
use better_ccflare_rs.Base.Sort.{Sorted}
use better_ccflare_rs.Account.{Account, UsageMap}
use better_ccflare_rs.Balancer.{
  SelectionMeta, SessionStrategy, Selection, select, select_forced, select_fallback, select_active,
  select_tier, serve_active, lead_with, start_session, is_account_available, maybe_reset_session,
  take_chosen, check_auto_fallback_accounts, active_account, available_accounts, has_active_session,
  choose_index, top_tier, max_by_session, latest_session, session_key, cmp_usage_aware,
}
use better_ccflare_rs.Balancer.Order.{sort_accounts_sound, priority-le}
use better_ccflare_rs.Balancer.Leading.{start_session-id}
use better_ccflare_rs.Balancer.Select.{active_account-In, choose_index-lt, top_tier_pos}

-- The first account carries this id.
abbrev pub Leads : Account → Selection → Type 0
Leads a r = (c : Account) × (rest : List Account) × (r.accounts ≡ c ∷ rest) × (c.id ≡ a.id)

lead_with-Leads :
    (s : SessionStrategy) (accounts : List Account) (usage : UsageMap) (meta : SelectionMeta)
    (now : ℤ) (a : Account)
    → Leads a (lead_with s accounts usage meta now a)
unfolding lead_with
lead_with-Leads s accounts usage meta now a =
    ((start_session s meta a now).0, _, refl, start_session-id s meta a now)

winner : Account → Account → Account
winner best x = if ltb_ℤ (session_key x) (session_key best) then best else x

winner_max :
    (best x : Account)
    → (session_key best ≤ℤ session_key (winner best x))
      × (session_key x ≤ℤ session_key (winner best x))
unfolding winner
winner_max best x = ground arith

max_by_session-max :
    (best : Account) (xs : List Account)
    → (session_key best ≤ℤ session_key (max_by_session best xs))
      × All (λ b. session_key b ≤ℤ session_key (max_by_session best xs)) xs
unfolding max_by_session winner
max_by_session-max best [] = (omega arith, tt)
max_by_session-max best (x ∷ xs) =
    let (p, q) = max_by_session-max (winner best x) xs in
    let (hb, hx) = winner_max best x in
    (
      trans (session_key best) (session_key (winner best x))
          (session_key (max_by_session (winner best x) xs)) hb p,
      (
        trans (session_key x) (session_key (winner best x))
            (session_key (max_by_session (winner best x) xs)) hx p,
        q,
      ),
    )
  where
    trans : (a b c : ℤ) → a ≤ℤ b → b ≤ℤ c → a ≤ℤ c
    trans a b c h k = omega arith

latest_session-max :
    (xs : List Account) (a : Account)
    → latest_session xs ≡ some a
    → All (λ b. session_key b ≤ℤ session_key a) xs
latest_session-max [] a e = cc
latest_session-max (x ∷ xs) a e =
    let same : max_by_session x xs ≡ a = cc in
    subst (λ m. All (λ b. session_key b ≤ℤ session_key m) (x ∷ xs)) same
      (let (p, q) = max_by_session-max x xs in (p, q))

active_account-max :
    (s : SessionStrategy) (accounts : List Account) (now : ℤ) (a : Account)
    → active_account s accounts now ≡ some a
    → All
        (λ c. session_key c ≤ℤ session_key a)
        (filter (λ c. has_active_session s.session_duration_ms c now) accounts)
unfolding active_account
active_account-max s accounts now a e = latest_session-max _ a e

select-active-Leads :
    (s : SessionStrategy) (accounts : List Account) (usage : UsageMap) (meta : SelectionMeta)
    (now : ℤ) (a : Account)
    → meta.force_account_id ≡ none
    → check_auto_fallback_accounts accounts usage now ≡ []
    → active_account s accounts now ≡ some a
    → is_account_available a usage now ≡ true
    → Yields (Leads a) (select s accounts usage meta now)
unfolding select select_forced select_fallback select_active serve_active
select-active-Leads s accounts usage meta now a f b e up =
    simp (f, b, e, up) (lead_with-Leads s accounts usage meta now a)

active_account-some :
    (s : SessionStrategy) (accounts : List Account) (now : ℤ) (b : Account)
    → In b accounts
    → has_active_session s.session_duration_ms b now ≡ true
    → (a : Account) × (active_account s accounts now ≡ some a)
unfolding active_account
active_account-some s accounts now b i r =
    first _ (filter-In (λ c. has_active_session s.session_duration_ms c now) b accounts i r)
  where
    first : (xs : List Account) → In b xs → (a : Account) × (latest_session xs ≡ some a)
    first [] i = absurd i
    first (x ∷ xs) i = (max_by_session x xs, refl)

-- No account is forced and none comes back from its rate limit, and some account has a running
-- session: then there is an account with a running session, none of which started later, and it goes
-- first whatever the priorities, unless it may not be routed to.
pub select_keeps_session :
    (s : SessionStrategy) (accounts : List Account) (usage : UsageMap) (meta : SelectionMeta)
    (now : ℤ) (b : Account)
    → meta.force_account_id ≡ none
    → check_auto_fallback_accounts accounts usage now ≡ []
    → In b accounts
    → has_active_session s.session_duration_ms b now ≡ true
    → (a : Account) × In a accounts
      × (has_active_session s.session_duration_ms a now ≡ true)
      × All
          (λ c. session_key c ≤ℤ session_key a)
          (filter (λ c. has_active_session s.session_duration_ms c now) accounts)
      × ((is_account_available a usage now ≡ false)
          ⊎ Yields (Leads a) (select s accounts usage meta now))
select_keeps_session s accounts usage meta now b f back i r =
    let (a, e) = active_account-some s accounts now b i r in
    let (j, running) = active_account-In s accounts now a e in
    (
      a,
      j,
      running,
      active_account-max s accounts now a e,
      elim (Bool-cases (is_account_available a usage now)) [
        | inl up ↦ inr (select-active-Leads s accounts usage meta now a f back e up)
        | inr down ↦ inl down
      ],
    )

-- No other account has a better priority than the first.
abbrev pub BestFirst : List Account → Type 0
BestFirst [] = Unit {0}
BestFirst (c ∷ rest) = All (λ b. c.priority ≤ℤ b.priority) rest

start_session-priority :
    (s : SessionStrategy) (meta : SelectionMeta) (a : Account) (now : ℤ)
    → (start_session s meta a now).0.priority ≡ a.priority
unfolding start_session maybe_reset_session
start_session-priority s meta a now = ground arith

take_chosen-BestFirst :
    (s : SessionStrategy) (meta : SelectionMeta) (now : ℤ) (xs : List Account) (a : Account)
    → All (λ b. a.priority ≤ℤ b.priority) xs
    → Yields (λ r. BestFirst r.accounts) (take_chosen s meta now xs (some a))
unfolding take_chosen
take_chosen-BestFirst s meta now xs a h = rw (start_session-priority s meta a now) (
    All-of_In (λ b. a.priority ≤ℤ b.priority) _
      (λ b i. All-In (λ b. a.priority ≤ℤ b.priority) b xs h (In-filter _ b xs i).0))

select_tier-BestFirst :
    (s : SessionStrategy) (meta : SelectionMeta) (now : ℤ) (xs : List Account) (usage : UsageMap)
    → Sorted (cmp_usage_aware usage) xs
    → Yields (λ r. BestFirst r.accounts) (select_tier s meta now xs)
unfolding select_tier
select_tier-BestFirst s meta now [] usage h = tt
select_tier-BestFirst s meta now (top ∷ rest) usage h =
    let tier = top_tier top (top ∷ rest) in
    let (i, t) = choose_index s tier in
    let (a, e) = get_elem?-lt tier i (choose_index-lt s tier (top_tier_pos top rest)) in
    let (_, same) =
      In-filter (λ b. eq_ℤ b.priority top.priority) a (top ∷ rest) (get_elem?-In tier i a e) in
    rw e (
      take_chosen-BestFirst t meta now (top ∷ rest) a (
        ground (arith, same),
        All-of_In _ rest (λ b j.
            let k = priority-le usage top b (All-In _ b rest h.0 j) in ground (arith, same, k)),
      ))

-- With nothing forced, nothing coming back and no running session, no other account has a better
-- priority than the one that goes first.
pub select-BestFirst :
    (s : SessionStrategy) (accounts : List Account) (usage : UsageMap) (meta : SelectionMeta)
    (now : ℤ)
    → meta.force_account_id ≡ none
    → check_auto_fallback_accounts accounts usage now ≡ []
    → active_account s accounts now ≡ none
    → Yields (λ r. BestFirst r.accounts) (select s accounts usage meta now)
unfolding select select_forced select_fallback select_active
select-BestFirst s accounts usage meta now f b e =
    simp (f, b, e)
      (select_tier-BestFirst s meta now (available_accounts accounts usage now) usage
        (sort_accounts_sound (filter (λ a. is_account_available a usage now) accounts) usage).1)
