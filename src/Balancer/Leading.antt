-- ===== src/Balancer/Leading.antt =====
-- `select` of crates/load-balancer/src/lib.rs: a chosen account first, and the others after it.
use mathlib.Core.List.{Perm}
use mathlib.Core.List.Perm
use better_ccflare_rs.Base.{
  Yields, ◌≡◌, false, not, ◌&&◌, String, some, List, ◌∷◌, arith, In, filter, str_eq, map, Yields,
}
use better_ccflare_rs.Base.Int.{ℤ}
use better_ccflare_rs.Base.Sort.{sort_by-perm, sort_by-Pairs}
use better_ccflare_rs.Account.{Account, UsageMap}
use better_ccflare_rs.Balancer.{
  SelectionMeta, SessionStrategy, start_session, lead_with, is_account_available,
  sort_accounts_usage_aware, cmp_usage_aware, take_chosen, available_accounts,
}
use better_ccflare_rs.Balancer.Session.{maybe_reset_session-id}
use better_ccflare_rs.Balancer.Pool.{
  Distinct, unlike, unlike-perm, filter-Distinct, filter-filter, str_eq_flip,
}

abbrev pub ids : List Account → List String
ids = map (λ a. a.id)

abbrev pub serving : List Account → UsageMap → ℤ → List Account
serving accounts usage now = filter (λ a. is_account_available a usage now) accounts

pub start_session-id :
    (s : SessionStrategy) (meta : SelectionMeta) (a : Account) (now : ℤ)
    → (start_session s meta a now).0.id ≡ a.id
unfolding start_session
start_session-id s meta a now = ground (arith, maybe_reset_session-id s.session_duration_ms a now)

others_by_id :
    (c a : Account) (accounts : List Account) (usage : UsageMap) (now : ℤ)
    → c.id ≡ a.id
    → filter (λ b. not (str_eq b.id c.id) && is_account_available b usage now) accounts
      ≡ filter (unlike a) (serving accounts usage now)
others_by_id c a accounts usage now e =
    rw e (filter-filter (unlike a) (λ b. is_account_available b usage now) accounts)

-- The list that starts with an account of the pool holds the pool once.
lead-perm :
    (c a : Account) (xs rest : List Account)
    → c.id ≡ a.id
    → Distinct xs
    → In a xs
    → Perm rest (filter (unlike a) xs)
    → Perm (ids (c ∷ rest)) (ids xs)
lead-perm c a xs rest e d i p = rw e (
    Perm.trans (Perm.cons a.id (Perm.map (λ b. b.id) p))
      (Perm.map (λ b. b.id) (unlike-perm a xs d i)))

pub serving-Distinct :
    (accounts : List Account) (usage : UsageMap) (now : ℤ)
    → Distinct accounts
    → Distinct (serving accounts usage now)
serving-Distinct accounts usage now d =
    filter-Distinct (λ a. is_account_available a usage now) accounts d

pub lead_with-perm :
    (s : SessionStrategy) (accounts : List Account) (usage : UsageMap) (meta : SelectionMeta)
    (now : ℤ) (a : Account)
    → Distinct accounts
    → In a (serving accounts usage now)
    → Perm (ids (lead_with s accounts usage meta now a).accounts) (ids (serving accounts usage now))
unfolding lead_with sort_accounts_usage_aware
lead_with-perm s accounts usage meta now a d i =
    let e = start_session-id s meta a now in
    let c = (start_session s meta a now).0 in
    lead-perm c a (serving accounts usage now) _ e (serving-Distinct accounts usage now d) i
      (rw (others_by_id c a accounts usage now e) (sort_by-perm (cmp_usage_aware usage) _))

pub available-Distinct :
    (accounts : List Account) (usage : UsageMap) (now : ℤ)
    → Distinct accounts
    → Distinct (available_accounts accounts usage now)
unfolding sort_accounts_usage_aware
available-Distinct accounts usage now d =
    sort_by-Pairs (cmp_usage_aware usage) (λ a b. str_eq b.id a.id ≡ false)
      (λ a b. str_eq_flip b.id a.id) (serving accounts usage now)
      (serving-Distinct accounts usage now d)

pub take_chosen-perm :
    (s : SessionStrategy) (meta : SelectionMeta) (now : ℤ) (xs : List Account) (a : Account)
    → Distinct xs
    → In a xs
    → Yields (λ r. Perm (ids r.accounts) (ids xs)) (take_chosen s meta now xs (some a))
unfolding take_chosen
take_chosen-perm s meta now xs a d h =
    let i = start_session-id s meta a now in
    lead-perm (start_session s meta a now).0 a xs _ i d h (rw i (Perm.refl (filter (unlike a) xs)))
