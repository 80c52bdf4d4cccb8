-- ===== src/XFactor/Refinement.antt =====
-- The five-hour window of crates/proxy/src/xfactor/state.rs as an implementation of the log of
-- all requests.
use better_ccflare_rs.Base.{
  ℕ, ◌+◌, ◌<◌, String, ◌≡◌, refl, sym, ap, subst, ◌∙◌, Bool, true, Option, List, [], ◌∷◌, ◌++◌, map,
  arith, All, ◌^◌,
}
use mathlib.Core.List.{append-nil, append_assoc}
use better_ccflare_rs.Base.Int.{ℤ, ◌-ℤ◌, leb_ℤ}
use better_ccflare_rs.Base.Float.{F64}
use better_ccflare_rs.XFactor.{Math, AccountCapacityState, window_5h_ms, evict_old, on_request, new}
use better_ccflare_rs.XFactor.Posterior.{on_usage_poll}
use better_ccflare_rs.XFactor.Polls.{SameWindow, on_usage_poll-SameWindow}
use better_ccflare_rs.XFactor.Clamps.{Event, requests, polls, on_event, run}
use better_ccflare_rs.XFactor.Logs.{
  Log, quarters, total, Ordered, total-append, append-Ordered, All-snoc, leb_trans, Log, quarters,
  total, Ordered, total-append, append-Ordered, All-snoc, leb_trans,
}
use better_ccflare_rs.XFactor.Window.{Holds, evict_old-Holds, snoc-Holds}

-- The spec: the requests that were made, in order, whatever polls came between.
pub data Use : Type 0 where
  requested : ℤ → ℕ → Use
  polled : ℤ → F64 → Use

abbrev pub event_of : Use → Event
event_of (requested t n) = requests t (quarters n)
event_of (polled t u) = polls t u

abbrev pub time_of : Use → ℤ
time_of (requested t n) = t
time_of (polled t u) = t

abbrev pub log_of : List Use → Log
log_of [] = []
log_of (requested t n ∷ uses) = (t, n) ∷ log_of uses
log_of (polled t u ∷ uses) = log_of uses

abbrev pub Counts : Use → Type 0
Counts (requested t n) = 0 < n
Counts (polled t u) = Unit

-- No event is earlier than the one before, and a request counts at least one quarter token.
abbrev pub InOrder : ℤ → List Use → Type 0
InOrder last [] = Unit
InOrder last (u ∷ uses) = (leb_ℤ last (time_of u) ≡ true) × Counts u × InOrder (time_of u) uses

abbrev pub last_time : ℤ → List Use → ℤ
last_time last [] = last
last_time last (u ∷ uses) = last_time (time_of u) uses

-- What links the log to the state.
record Tracks (last : ℤ) (log : Log) (s : AccountCapacityState) : Type 0 where
  ordered : Ordered log
  past : All (λ r. leb_ℤ r.0 last ≡ true) log
  bounded : total log < 2 ^ 53
  cutoff : ℤ
  old : leb_ℤ cutoff (last -ℤ window_5h_ms) ≡ true
  holds : Holds log cutoff s

sub_mono : (a b : ℤ) → leb_ℤ a b ≡ true → leb_ℤ (a -ℤ window_5h_ms) (b -ℤ window_5h_ms) ≡ true
unfolding ◌-ℤ◌
sub_mono a b h = ground (arith, h)

All-later :
    (a b : ℤ) (log : Log)
    → leb_ℤ a b ≡ true
    → All (λ r. leb_ℤ r.0 a ≡ true) log
    → All (λ r. leb_ℤ r.0 b ≡ true) log
All-later a b [] h k = tt
All-later a b (r ∷ log) h k = (leb_trans r.0 a b k.0 h, All-later a b log h k.1)

-- After the eviction at a later time.
Tracks-evict :
    (last now_ms : ℤ) (log : Log) (s : AccountCapacityState)
    → leb_ℤ last now_ms ≡ true
    → Tracks last log s
    → Holds log (now_ms -ℤ window_5h_ms) (evict_old s now_ms)
Tracks-evict last now_ms log s h k =
    evict_old-Holds log k.cutoff s now_ms k.ordered k.bounded
      (leb_trans k.cutoff (last -ℤ window_5h_ms) (now_ms -ℤ window_5h_ms) k.old
        (sub_mono last now_ms h))
      k.holds

Tracks-poll :
    (math : Math) (last t : ℤ) (u : F64) (log : Log) (s : AccountCapacityState)
    → leb_ℤ last t ≡ true
    → Tracks last log s
    → Tracks t log (on_usage_poll math s t u)
unfolding SameWindow
Tracks-poll math last t u log s h k =
    let same = on_usage_poll-SameWindow math s t u in
    let now = Tracks-evict last t log s h k in
    record {
      ordered = k.ordered;
      past = All-later last t log h k.past;
      bounded = k.bounded;
      cutoff = t -ℤ window_5h_ms;
      old = ground arith;
      holds = (same.0 ∙ now.0, same.1 ∙ now.1);
    }

Tracks-request :
    (last t : ℤ) (n : ℕ) (log : Log) (s : AccountCapacityState)
    → leb_ℤ last t ≡ true
    → 0 < n
    → total log + n < 2 ^ 53
    → Tracks last log s
    → Tracks t (log ++ ((t, n) ∷ [])) (on_request s t (quarters n))
Tracks-request last t n log s h p b k =
    let past = All-later last t log h k.past in
    record {
      ordered = append-Ordered log t n k.ordered past;
      past = All-snoc _ log (t, n) past (ground arith);
      bounded = omega (arith, total-append log ((t, n) ∷ []), b);
      cutoff = t -ℤ window_5h_ms;
      old = ground arith;
      holds = snoc-Holds t n log s p b (Tracks-evict last t log s h k);
    }

-- The sum of all requests fits where that of each part does.
Tracks-use :
    (math : Math) (last : ℤ) (u : Use) (log : Log) (s : AccountCapacityState)
    → leb_ℤ last (time_of u) ≡ true
    → Counts u
    → total log + total (log_of (u ∷ [])) < 2 ^ 53
    → Tracks last log s
    → Tracks (time_of u) (log ++ log_of (u ∷ [])) (on_event math s (event_of u))
unfolding on_event
Tracks-use math last (requested t n) log s h p b k =
    Tracks-request last t n log s h p (omega (arith, b)) k
Tracks-use math last (polled t u) log s h p b k =
    subst (λ l. Tracks t l (on_usage_poll math s t u)) (sym (append-nil log))
      (Tracks-poll math last t u log s h k)

log-split : (u : Use) (uses : List Use) → log_of (u ∷ uses) ≡ log_of (u ∷ []) ++ log_of uses
log-split (requested t n) uses = refl
log-split (polled t u) uses = refl

Tracks-run :
    (math : Math) (last : ℤ) (uses : List Use) (log : Log) (s : AccountCapacityState)
    → InOrder last uses
    → total log + total (log_of uses) < 2 ^ 53
    → Tracks last log s
    → Tracks (last_time last uses) (log ++ log_of uses) (run math s (map event_of uses))
unfolding run
Tracks-run math last [] log s o b k = subst (λ l. Tracks last l s) (sym (append-nil log)) k
Tracks-run math last (u ∷ uses) log s o b k =
    let one : Log = log_of (u ∷ []) in
    let rest : Log = log_of uses in
    let split : total (log_of (u ∷ uses)) ≡ total one + total rest =
      ap total (log-split u uses) ∙ total-append one rest in
    let next = Tracks-use math last u log s o.0 o.1 (omega (arith, b, split)) k in
    subst
      (λ l.
        Tracks (last_time (time_of u) uses) l
          (run math (on_event math s (event_of u)) (map event_of uses)))
      (append_assoc log one rest ∙ ap (λ l. log ++ l) (sym (log-split u uses)))
      (Tracks-run math (time_of u) uses (log ++ one) (on_event math s (event_of u)) o.2
        (omega (arith, total-append log one, b, split)) next)

Tracks-new :
    (math : Math) (id name : String) (tier : Option String) (shared : Bool) (start : ℤ)
    → Tracks start [] (new math id name tier shared start)
unfolding new
Tracks-new math id name tier shared start = record {
  ordered = tt;
  past = tt;
  bounded = omega arith;
  cutoff = start -ℤ window_5h_ms;
  old = ground arith;
  holds = (refl, refl);
}

-- Of a fresh account whose events come in order and whose requests count whole quarter tokens, fewer
-- than 2 ^ 53 in all: at any later time the eviction leaves in the window the requests of the last
-- five hours, each with its weight, and the running sum is their sum with no rounding error, whatever
-- polls came between.
pub window_refines_log :
    (math : Math) (id name : String) (tier : Option String) (shared : Bool) (start now_ms : ℤ)
    → (uses : List Use) → InOrder start uses
    → total (log_of uses) < 2 ^ 53
    → leb_ℤ (last_time start uses) now_ms ≡ true
    → Holds
        (log_of uses)
        (now_ms -ℤ window_5h_ms)
        (evict_old (run math (new math id name tier shared start) (map event_of uses)) now_ms)
window_refines_log math id name tier shared start now_ms uses o b h =
    Tracks-evict (last_time start uses) now_ms (log_of uses) _ h (
      Tracks-run math start uses [] _ o (omega (arith, b))
        (Tracks-new math id name tier shared start))
