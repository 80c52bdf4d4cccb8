-- ===== src/Balancer/RoundRobin.antt =====
-- The round robin of crates/load-balancer/src/lib.rs: a tier of pay-as-you-go accounts takes turns.
use better_ccflare_rs.Base.{
  inr, inl, Bool-cases, ℕ, zero, suc, ◌+◌, ◌-◌, ◌%◌, ◌^◌, ◌<◌, ◌≡◌, true, not, List, arith, length,
  all, ltb, if◌then◌else◌, sym, ap, ◌∙◌,
}
use native.Mathlib.Nat.{mod-eq_of_lt, mod-add-mod}
use better_ccflare_rs.Account.{Account}
use better_ccflare_rs.Balancer.{SessionStrategy, choose_index, requires_session_tracking}

-- No account of the tier keeps sessions, and there is a choice.
abbrev pub TakesTurns : List Account → Type 0
TakesTurns tier =
    (1 < length tier) × (all (λ a. not (requires_session_tracking a.provider)) tier ≡ true)

-- The strategy after some selections within the tier.
pub after_turns : ℕ → SessionStrategy → List Account → SessionStrategy
after_turns zero s tier = s
after_turns (suc k) s tier = after_turns k (choose_index s tier).1 tier

choose_index-turn :
    (s : SessionStrategy) (tier : List Account)
    → TakesTurns tier
    → s.round_robin_counter + 1 < 2 ^ 64
    → ((choose_index s tier).0 ≡ s.round_robin_counter % length tier)
      × ((choose_index s tier).1.round_robin_counter ≡ s.round_robin_counter + 1)
unfolding choose_index
choose_index-turn s tier t h = ground arith

after_turns-counter :
    (k : ℕ) (s : SessionStrategy) (tier : List Account)
    → TakesTurns tier
    → s.round_robin_counter + k < 2 ^ 64
    → (after_turns k s tier).round_robin_counter ≡ s.round_robin_counter + k
unfolding after_turns
after_turns-counter zero s tier t h = omega arith
after_turns-counter (suc k) s tier t h =
    let (_, e) = choose_index-turn s tier t (omega arith) in
    omega (arith, e, after_turns-counter k (choose_index s tier).1 tier t (omega (arith, e)))

-- How many turns it takes from counter `c` until index `j` of `n` comes up.
pub turns_until : ℕ → ℕ → ℕ → ℕ
turns_until c n j = if ltb j (c % n) then n + j - c % n else j - c % n

wrap : (n j : ℕ) → j < n → (n + j) % n ≡ j
wrap n j h = grind arith

turns_until_lem : (c n j : ℕ) → j < n → (turns_until c n j < n) × ((c + turns_until c n j) % n ≡ j)
unfolding turns_until
turns_until_lem c n j h = elim (Bool-cases (ltb j (c % n))) [
  | inl e ↦
      rw e (ground arith, turn (n + j - c % n) (ap (λ (m : ℕ). m % n) (ground arith) ∙ wrap n j h))
  | inr e ↦
      rw e (ground arith, turn (j - c % n) (ap (λ (m : ℕ). m % n) (ground arith) ∙ mod-eq_of_lt h))
]
  where
    turn : (k : ℕ) → (c % n + k) % n ≡ j → (c + k) % n ≡ j
    turn k e = sym (mod-add-mod c n k) ∙ e

-- In a tier that takes turns, every account is chosen within as many selections as the tier has accounts, as long as
-- the counter does not wrap.
pub round_robin_fair :
    (s : SessionStrategy) (tier : List Account) (j : ℕ)
    → TakesTurns tier
    → s.round_robin_counter + length tier < 2 ^ 64
    → j < length tier
    → let k = turns_until s.round_robin_counter (length tier) j in
      (k < length tier) × ((choose_index (after_turns k s tier) tier).0 ≡ j)
round_robin_fair s tier j t h lt =
    let (below, hit) = turns_until_lem s.round_robin_counter (length tier) j lt in
    let k = turns_until s.round_robin_counter (length tier) j in
    let c = after_turns-counter k s tier t (omega (arith, below)) in
    (
      below,
      (choose_index-turn (after_turns k s tier) tier t (omega (arith, c, below))).0
          ∙ ap (λ (m : ℕ). m % length tier) c
          ∙ hit,
    )
