-- ===== src/Limiter/Window.antt =====
-- The sliding window of crates/core/src/rate_limit.rs against a count of the stamps.
use better_ccflare_rs.Base.{
  ℕ, suc, ◌+◌, ◌-◌, ◌≤◌, ◌≡◌, refl, false, String, List, [], ◌∷◌, ◌++◌, arith, length,
  length-append, ltb, leb, str_eq, str_eq_iff, if◌then◌else◌, All, Bool-cases, inl, inr,
}
use better_ccflare_rs.Limiter.{Tracker, window_ms, drop_stale, check_and_record}

-- Time stamps in the order of the clock, none after `now`.
abbrev pub Rising : ℕ → List ℕ → Type 0
Rising now [] = Unit {0}
Rising now (t ∷ ts) = (t ≤ now) × All (λ u. t ≤ u) ts × Rising now ts

-- How many of the stamps lie in the minute that ends at `now`.
unfoldable pub recent : ℕ → List ℕ → ℕ
recent now [] = 0
recent now (t ∷ ts) = let rest = recent now ts in if ltb window_ms (now - t) then rest else suc rest

All-recent :
    (now t : ℕ) (ts : List ℕ)
    → ltb window_ms (now - t) ≡ false
    → All (λ u. t ≤ u) ts
    → recent now ts ≡ length ts
unfolding recent
All-recent now t [] e h = refl
All-recent now t (u ∷ us) e h = ground (arith, All-recent now t us e h.1, h.0)

-- What the loop leaves is exactly what is recent: it stops at the first recent stamp, and the queue
-- is in order.
pub length-drop_stale :
    (now m : ℕ) (ts : List ℕ) → Rising m ts → length (drop_stale now ts) ≡ recent now ts
unfolding drop_stale recent
length-drop_stale now m [] r = refl
length-drop_stale now m (t ∷ ts) r =
    ground (arith, length-drop_stale now m ts r.2, All-recent now t ts)

drop_stale-Rising : (now m : ℕ) (ts : List ℕ) → Rising m ts → Rising m (drop_stale now ts)
unfolding drop_stale
drop_stale-Rising now m [] r = tt
drop_stale-Rising now m (t ∷ ts) r = elim (Bool-cases (ltb window_ms (now - t))) [
  | inl e ↦ rw e (drop_stale-Rising now m ts r.2)
  | inr e ↦ rw e r
]

All-append_one :
    (t now : ℕ) (ts : List ℕ) → t ≤ now → All (λ u. t ≤ u) ts → All (λ u. t ≤ u) (ts ++ (now ∷ []))
All-append_one t now [] h a = (h, tt)
All-append_one t now (u ∷ us) h a = (a.0, All-append_one t now us h a.1)

Rising-append : (m now : ℕ) (ts : List ℕ) → m ≤ now → Rising m ts → Rising now (ts ++ (now ∷ []))
Rising-append m now [] h r = (omega arith, tt, tt)
Rising-append m now (t ∷ ts) h r =
    (omega arith, All-append_one t now ts (omega arith) r.1, Rising-append m now ts h r.2)

Rising-later : (m now : ℕ) (ts : List ℕ) → m ≤ now → Rising m ts → Rising now ts
Rising-later m now [] h r = tt
Rising-later m now (t ∷ ts) h r = (omega arith, r.1, Rising-later m now ts h r.2)

-- The call leaves the stamps in order.
pub check_and_record-Rising :
    (m : Tracker) (key_id : String) (rpm_limit before now : ℕ)
    → before ≤ now
    → ((k : String) → Rising before (m k))
    → (k : String) → Rising now ((check_and_record m key_id rpm_limit now).0 k)
unfolding check_and_record
check_and_record-Rising m key_id rpm_limit before now h r k =
    let rest = drop_stale-Rising now before (m key_id) (r key_id) in
    let dropped = Rising-later before now _ h rest in
    let recorded = Rising-append before now _ h rest in
    let other = Rising-later before now (m k) h (r k) in
    elim (Bool-cases (leb rpm_limit (length (drop_stale now (m key_id))))) [
      | inl full ↦ elim (Bool-cases (str_eq k key_id)) [
        | inl e ↦ simp (full, e) dropped
        | inr e ↦ simp (full, e) other
      ]
      | inr free ↦ elim (Bool-cases (str_eq k key_id)) [
        | inl e ↦ simp (free, e) recorded
        | inr e ↦ simp (free, e) other
      ]
    ]

-- With the stamps of the key in order, a call is allowed exactly when fewer than the limit were recorded in the last minute; then it is
-- recorded too. Other keys keep their queues.
pub check_and_record_lem :
    (m : Tracker) (key_id : String) (rpm_limit before now : ℕ)
    → Rising before (m key_id)
    → let (after, allowed) = check_and_record m key_id rpm_limit now in
      (allowed ≡ ltb (recent now (m key_id)) rpm_limit)
      × (length (after key_id) ≡ recent now (m key_id) + (if allowed then 1 else 0))
      × ((k : String) → str_eq k key_id ≡ false → after k ≡ m k)
unfolding check_and_record
check_and_record_lem m key_id rpm_limit before now r =
    let n = length-drop_stale now before (m key_id) r in
    let queue = drop_stale now (m key_id) in
    let one = length-append queue (now ∷ []) in
    let self = (str_eq_iff key_id key_id).1 refl in
    elim (Bool-cases (leb rpm_limit (length queue))) [
      | inl full ↦ rw full (ground (arith, full, n), rw self (rw n (omega arith)), λ k e. rw e refl)
      | inr free ↦ rw free (ground (arith, free, n), rw self (rw one (rw n refl)), λ k e. rw e refl)
    ]

recent_later : (now later : ℕ) (ts : List ℕ) → now ≤ later → recent later ts ≤ recent now ts
unfolding recent
recent_later now later [] h = omega arith
recent_later now later (t ∷ ts) h = ground (arith, recent_later now later ts h)

recent-le-length : (now : ℕ) (ts : List ℕ) → recent now ts ≤ length ts
unfolding recent
recent-le-length now [] = omega arith
recent-le-length now (t ∷ ts) = ground (arith, recent-le-length now ts)

-- The calls of one key, at the given gaps after one another.
pub run : Tracker → String → ℕ → ℕ → List ℕ → Tracker × ℕ
run m key limit now [] = (m, now)
run m key limit now (gap ∷ gaps) =
    run (check_and_record m key limit (now + gap)).0 key limit (now + gap) gaps

-- From a tracker whose stamps are in order and a key within its limit, no sequence of calls leaves the
-- key with more requests recorded in the last minute than its limit.
pub run_bounded :
    (m : Tracker) (key : String) (limit now : ℕ) (gaps : List ℕ)
    → ((k : String) → Rising now (m k))
    → recent now (m key) ≤ limit
    → let (after, end) = run m key limit now gaps in recent end (after key) ≤ limit
unfolding run
run_bounded m key limit now [] r h = h
run_bounded m key limit now (gap ∷ gaps) r h =
    run_bounded (check_and_record m key limit (now + gap)).0 key limit (now + gap) gaps
      (check_and_record-Rising m key limit now (now + gap) (omega arith) r)
      (ground (
        arith,
        check_and_record_lem m key limit now (now + gap) (r key),
        recent_later now (now + gap) (m key),
        recent-le-length (now + gap) ((check_and_record m key limit (now + gap)).0 key),
      ))
