-- ===== src/Balancer/Order.antt =====
-- The order of crates/load-balancer/src/lib.rs: `sort_accounts_usage_aware`.
use Prim.Native.Nat.{Ordering}
use mathlib.Core.List.{Perm}
use better_ccflare_rs.Base.{
  Pairs, All-In, All-of_In, ◌⊎◌, inl, inr, none, some, [], ◌∷◌, ◌≡◌, refl, Bool, true, false,
  Option, List, arith,
}
use better_ccflare_rs.Base.Int.{ltb_ℤ, ℤ, ◌≤ℤ◌, cmp_ℤ}
use better_ccflare_rs.Base.Sort.{is_gt, sort_by-perm, Sorted, sort_by-Sorted}
use better_ccflare_rs.Account.{Account, UsageMap}
use better_ccflare_rs.Eligibility.{is_at_reserve}
use better_ccflare_rs.Balancer.{
  cmp_reset, cmp_reserve, cmp_usage_aware, sort_accounts_usage_aware, resets_at,
}

-- What the comparison reads of an account.
record Key : Type 0 where
  priority : ℤ
  at_reserve : Bool
  resets : Option ℤ

key : UsageMap → Account → Key
key usage a = record {
  priority = a.priority;
  at_reserve = is_at_reserve a usage;
  resets = resets_at usage a;
}

cmp_key : Key → Key → Ordering
unfolding cmp_reserve cmp_reset
cmp_key a b =
    let rest = cmp_reserve a.at_reserve b.at_reserve (cmp_reset a.resets b.resets) in
    elim (cmp_ℤ a.priority b.priority) [
      | Ordering.eq ↦ rest
      | Ordering.lt ↦ Ordering.lt
      | Ordering.gt ↦ Ordering.gt
    ]

cmp_usage_aware-key :
    (usage : UsageMap) (a b : Account)
    → cmp_usage_aware usage a b ≡ cmp_key (key usage a) (key usage b)
unfolding cmp_usage_aware cmp_key key
cmp_usage_aware-key usage a b = refl

reset_asym : (r s : Option ℤ) → is_gt (cmp_reset r s) ≡ true → is_gt (cmp_reset s r) ≡ false
unfolding cmp_reset
reset_asym r s h = ground arith

reset_trans :
    (r s t : Option ℤ)
    → is_gt (cmp_reset r s) ≡ false
    → is_gt (cmp_reset s t) ≡ false
    → is_gt (cmp_reset r t) ≡ false
unfolding cmp_reset
reset_trans r s t h k = ground arith

key_asym : (a b : Key) → is_gt (cmp_key a b) ≡ true → is_gt (cmp_key b a) ≡ false
unfolding cmp_key
key_asym a b h = ground (arith, reset_asym a.resets b.resets)

key_trans :
    (a b c : Key)
    → is_gt (cmp_key a b) ≡ false
    → is_gt (cmp_key b c) ≡ false
    → is_gt (cmp_key a c) ≡ false
unfolding cmp_key
key_trans a b c h k = ground (arith, reset_trans a.resets b.resets c.resets)

-- The comparison is a total preorder, as `sort_by` requires of it.
pub cmp_usage_aware_total :
    (usage : UsageMap) (a b : Account)
    → is_gt (cmp_usage_aware usage a b) ≡ true
    → is_gt (cmp_usage_aware usage b a) ≡ false
cmp_usage_aware_total usage a b h =
    rw (cmp_usage_aware-key usage b a)
      (key_asym (key usage a) (key usage b) (rw (cmp_usage_aware-key usage a b) at h))

pub cmp_usage_aware_trans :
    (usage : UsageMap) (a b c : Account)
    → is_gt (cmp_usage_aware usage a b) ≡ false
    → is_gt (cmp_usage_aware usage b c) ≡ false
    → is_gt (cmp_usage_aware usage a c) ≡ false
cmp_usage_aware_trans usage a b c h k = rw (cmp_usage_aware-key usage a c) (
    key_trans (key usage a) (key usage b) (key usage c) (rw (cmp_usage_aware-key usage a b) at h)
      (rw (cmp_usage_aware-key usage b c) at k))

-- Sorting keeps the accounts, and leaves none behind one that goes after it.
pub sort_accounts_sound :
    (accounts : List Account) (usage : UsageMap)
    → Perm (sort_accounts_usage_aware accounts usage) accounts
      × Sorted (cmp_usage_aware usage) (sort_accounts_usage_aware accounts usage)
unfolding sort_accounts_usage_aware
sort_accounts_sound accounts usage = (
  sort_by-perm (cmp_usage_aware usage) accounts,
  sort_by-Sorted (cmp_usage_aware usage) (cmp_usage_aware_total usage) (cmp_usage_aware_trans usage)
      accounts,
)

-- A known reset comes before an unknown one, and an earlier before a later.
abbrev pub NoLater : Option ℤ → Option ℤ → Type 0
NoLater (some s) (some t) = s ≤ℤ t
NoLater (some s) none = Unit {0}
NoLater none (some t) = ⊥
NoLater none none = Unit {0}

-- `a` may stand before `b`: a better priority; or the same, and `a` is under its reserve and `b` at
-- it; or both the same, and the reset of `a` is no later.
abbrev pub Precedes : UsageMap → Account → Account → Type 0
Precedes usage a b =
    (ltb_ℤ a.priority b.priority ≡ true)
    ⊎ ((a.priority ≡ b.priority)
        × (((is_at_reserve a usage ≡ false) × (is_at_reserve b usage ≡ true))
            ⊎ ((is_at_reserve a usage ≡ is_at_reserve b usage)
                × NoLater (resets_at usage a) (resets_at usage b))))

cmp_reset-NoLater : (s t : Option ℤ) → is_gt (cmp_reset s t) ≡ false → NoLater s t
unfolding cmp_reset
cmp_reset-NoLater (some s) (some t) h = ground (arith, h)
cmp_reset-NoLater (some s) none h = tt
cmp_reset-NoLater none (some t) h = cc
cmp_reset-NoLater none none h = tt

cmp_reserve-Precedes :
    (p q : Bool) (s t : Option ℤ)
    → is_gt (cmp_reserve p q (cmp_reset s t)) ≡ false
    → ((p ≡ false) × (q ≡ true)) ⊎ ((p ≡ q) × NoLater s t)
unfolding cmp_reserve
cmp_reserve-Precedes false true s t h = inl (refl, refl)
cmp_reserve-Precedes true false s t h = cc
cmp_reserve-Precedes true true s t h = inr (refl, cmp_reset-NoLater s t h)
cmp_reserve-Precedes false false s t h = inr (refl, cmp_reset-NoLater s t h)

by_first : (a b : ℤ) → (ltb_ℤ a b ≡ true) ⊎ ((a ≡ b) ⊎ (ltb_ℤ b a ≡ true))
by_first a b = ground arith

cmp_usage_aware-Precedes :
    (usage : UsageMap) (a b : Account)
    → is_gt (cmp_usage_aware usage a b) ≡ false
    → Precedes usage a b
unfolding cmp_usage_aware
cmp_usage_aware-Precedes usage a b h = elim (by_first a.priority b.priority) [
  | inl l ↦ inl l
  | inr (inl e) ↦ inr (
    e,
    cmp_reserve-Precedes (is_at_reserve a usage) (is_at_reserve b usage) (resets_at usage a)
        (resets_at usage b) (ground (arith, e, h)),
  )
  | inr (inr g) ↦ absurd (ground (arith, g, h))
]

Sorted-Precedes :
    (usage : UsageMap) (xs : List Account)
    → Sorted (cmp_usage_aware usage) xs
    → Pairs (Precedes usage) xs
Sorted-Precedes usage [] h = tt
Sorted-Precedes usage (x ∷ xs) h = (
  All-of_In (Precedes usage x) xs (λ y i. cmp_usage_aware-Precedes usage x y (All-In _ y xs h.0 i)),
  Sorted-Precedes usage xs h.1,
)

-- The balancer's order keeps the accounts, and wherever one stands before another it has a better
-- priority; or the same one, and it is under its reserve and the other at it; or both the same, and
-- its usage is reset no later, an unknown reset being the last.
pub sort_accounts-Precedes :
    (accounts : List Account) (usage : UsageMap)
    → Perm (sort_accounts_usage_aware accounts usage) accounts
      × Pairs (Precedes usage) (sort_accounts_usage_aware accounts usage)
sort_accounts-Precedes accounts usage =
    let (p, s) = sort_accounts_sound accounts usage in (p, Sorted-Precedes usage _ s)

-- An account that stands before another has no greater priority number.
pub priority-le :
    (usage : UsageMap) (a b : Account)
    → is_gt (cmp_usage_aware usage a b) ≡ false
    → a.priority ≤ℤ b.priority
unfolding cmp_usage_aware
priority-le usage a b h = ground arith

-- Within a tier those under their reserve stand before those at it.
pub under_reserve_first :
    (usage : UsageMap) (a b : Account)
    → a.priority ≡ b.priority
    → is_gt (cmp_usage_aware usage a b) ≡ false
    → is_at_reserve a usage ≡ true
    → is_at_reserve b usage ≡ true
unfolding cmp_usage_aware cmp_reserve
under_reserve_first usage a b e h r = ground arith
