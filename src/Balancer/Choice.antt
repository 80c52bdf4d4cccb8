-- ===== src/Balancer/Choice.antt =====
-- `select` of crates/load-balancer/src/lib.rs: which account it puts first, and what it resets.
use better_ccflare_rs.Base.{
  Ensures-bind, get_elem?, Ensures-or_else, ◌≡◌, refl, ◌⊎◌, inl, inr, true, false, Option, none,
  some, List, [], ◌∷◌, arith, Bool-cases, find, str_eq, Yields, Ensures, String,
}
use better_ccflare_rs.Base.Int.{ℤ}
use better_ccflare_rs.Account.{Account, UsageMap}
use better_ccflare_rs.Balancer.{
  or_else, SelectionMeta, SessionStrategy, Selection, select, select_forced, serve_forced,
  select_fallback, select_active, select_tier, serve_active, lead_with, start_session,
  is_account_available, maybe_reset_session, take_chosen, check_auto_fallback_accounts,
  active_account, available_accounts,
}

-- With a strict force the forced account is the only candidate, or there is none at all.
pub select_strict :
    (s : SessionStrategy) (accounts : List Account) (usage : UsageMap) (meta : SelectionMeta)
    (now : ℤ) (forced : String) (a : Account)
    → meta.force_account_id ≡ some forced
    → meta.force_account_strict ≡ true
    → find (λ b. str_eq b.id forced) accounts ≡ some a
    → Yields
        (λ r.
          ((is_account_available a usage now ≡ true)
            × (r.accounts ≡ (start_session s meta a now).0 ∷ []))
          ⊎ ((is_account_available a usage now ≡ false) × (r.accounts ≡ [])))
        (select s accounts usage meta now)
unfolding select select_forced serve_forced
select_strict s accounts usage meta now forced a f strict found =
    elim (Bool-cases (is_account_available a usage now)) [
      | inl up ↦ simp (f, found, up, strict) (inl (refl, refl))
      | inr down ↦ simp (f, found, down, strict) (inr (refl, refl))
    ]

-- The answer reports a reset of its first account alone, begun now, and none when asked to bypass.
abbrev pub Reports : SelectionMeta → ℤ → Selection → Type 0
Reports meta now r =
    (r.resets ≡ [])
    ⊎ ((meta.bypass_session ≡ false)
        × ((c : Account) × (rest : List Account) × (r.accounts ≡ c ∷ rest)
            × (c.session_start ≡ some now)
            × (r.resets ≡ (record { account_id = c.id; new_session_start = now }) ∷ [])))

start_session_reports :
    (s : SessionStrategy) (meta : SelectionMeta) (a : Account) (now : ℤ)
    → let (c, resets) = start_session s meta a now in
      (resets ≡ [])
      ⊎ ((meta.bypass_session ≡ false)
          × (c.session_start ≡ some now)
          × (resets ≡ (record { account_id = c.id; new_session_start = now }) ∷ []))
unfolding start_session maybe_reset_session
start_session_reports s meta a now = ground arith

headed_Reports :
    (s t : SessionStrategy) (meta : SelectionMeta) (a : Account) (now : ℤ) (rest : List Account)
    → Reports meta now (record {
      accounts = (start_session s meta a now).0 ∷ rest;
      resets = (start_session s meta a now).1;
      strategy = t;
    })
headed_Reports s t meta a now rest = elim (start_session_reports s meta a now) [
  | inl e ↦ inl e
  | inr (b, st, e) ↦ inr (b, ((start_session s meta a now).0, rest, refl, st, e))
]

module _ (s : SessionStrategy) (accounts : List Account) (usage : UsageMap) (meta : SelectionMeta)
    (now : ℤ) where
  lead_with-Reports : (a : Account) → Reports meta now (lead_with s accounts usage meta now a)
  unfolding lead_with
  lead_with-Reports a = headed_Reports s s meta a now _

  serve_forced-Reports :
      (a : Account) → Ensures (Reports meta now) (serve_forced s accounts usage meta now a)
  unfolding serve_forced
  serve_forced-Reports a = elim (Bool-cases (is_account_available a usage now)) [
    | inl up ↦ elim (Bool-cases meta.force_account_strict) [
      | inl strict ↦ simp (up, strict) (headed_Reports s s meta a now [])
      | inr soft ↦ simp (up, soft) (lead_with-Reports a)
    ]
    | inr down ↦ elim (Bool-cases meta.force_account_strict) [
      | inl strict ↦ simp (down, strict) (inl refl)
      | inr soft ↦ simp (down, soft) tt
    ]
  ]

  select_forced-Reports : Ensures (Reports meta now) (select_forced s accounts usage meta now)
  unfolding select_forced
  select_forced-Reports = Ensures-bind (Reports meta now) meta.force_account_id _ (λ f.
      Ensures-bind (Reports meta now) (find (λ a. str_eq a.id f) accounts) _ serve_forced-Reports)

  select_fallback-Reports : Ensures (Reports meta now) (select_fallback s accounts usage meta now)
  unfolding select_fallback
  select_fallback-Reports =
      Ensures-bind (Reports meta now)
        (get_elem? (check_auto_fallback_accounts accounts usage now) 0)
        (λ a. some (lead_with s accounts usage meta now a)) lead_with-Reports

  serve_active-Reports :
      (a : Account) → Ensures (Reports meta now) (serve_active s accounts usage meta now a)
  unfolding serve_active
  serve_active-Reports a = elim (Bool-cases (is_account_available a usage now)) [
    | inl up ↦ simp up (lead_with-Reports a)
    | inr down ↦ simp down tt
  ]

  select_active-Reports : Ensures (Reports meta now) (select_active s accounts usage meta now)
  unfolding select_active
  select_active-Reports =
      Ensures-bind (Reports meta now) (active_account s accounts now)
        (serve_active s accounts usage meta now) serve_active-Reports

take_chosen-Reports :
    (s : SessionStrategy) (meta : SelectionMeta) (now : ℤ) (xs : List Account) (o : Option Account)
    → Ensures (Reports meta now) (take_chosen s meta now xs o)
unfolding take_chosen
take_chosen-Reports s meta now xs none = tt
take_chosen-Reports s meta now xs (some a) = headed_Reports s s meta a now _

select_tier-Reports :
    (s : SessionStrategy) (meta : SelectionMeta) (now : ℤ) (xs : List Account)
    → Ensures (Reports meta now) (select_tier s meta now xs)
unfolding select_tier
select_tier-Reports s meta now [] = inl refl
select_tier-Reports s meta now (top ∷ rest) = take_chosen-Reports _ meta now (top ∷ rest) _

-- At most one session is reset, that of the account put first, which then starts now.
pub select-Reports :
    (s : SessionStrategy) (accounts : List Account) (usage : UsageMap) (meta : SelectionMeta)
    (now : ℤ)
    → Ensures (Reports meta now) (select s accounts usage meta now)
unfolding select
select-Reports s accounts usage meta now =
    let tier = select_tier s meta now (available_accounts accounts usage now) in
    let active = select_active s accounts usage meta now in
    let fallback = select_fallback s accounts usage meta now in
    Ensures-or_else (Reports meta now) (select_forced s accounts usage meta now)
      (or_else fallback (or_else active tier)) (select_forced-Reports s accounts usage meta now)
      (Ensures-or_else (Reports meta now) fallback (or_else active tier)
        (select_fallback-Reports s accounts usage meta now)
        (Ensures-or_else (Reports meta now) active tier
          (select_active-Reports s accounts usage meta now)
          (select_tier-Reports s meta now (available_accounts accounts usage now))))
