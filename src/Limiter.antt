-- ===== src/Limiter.antt =====
-- crates/core/src/rate_limit.rs: the sliding window of requests per API key. An `Instant` is the
-- milliseconds that a monotonic clock shows; the mutex makes each call one step.
pub mod Window
use better_ccflare_rs.Base.{
  ℕ, ◌-◌, ◌<◌, Bool, true, false, not, String, List, [], ◌∷◌, ◌++◌, length, ltb, leb, str_eq,
  if◌then◌else◌,
}

-- `Duration::from_secs(60)` in milliseconds.
abbrev pub window_ms : ℕ
window_ms = 60_000

-- `HashMap<String, VecDeque<Instant>>`: a missing key counts as an empty queue, which is what
-- `entry(..).or_default()` makes of it.
abbrev pub Tracker : Type 0
Tracker = String → List ℕ

abbrev pub new_tracker : Tracker
new_tracker key = []

-- The `while` loop over the front of the queue. `duration_since` saturates at zero.
unfoldable pub drop_stale : ℕ → List ℕ → List ℕ
drop_stale now [] = []
drop_stale now (t ∷ ts) =
    let rest = drop_stale now ts in if ltb window_ms (now - t) then rest else t ∷ ts

unfoldable pub set_queue : Tracker → String → List ℕ → Tracker
set_queue m key q k = if str_eq k key then q else m k

unfoldable pub check_and_record : Tracker → String → ℕ → ℕ → Tracker × Bool
unfolding set_queue
check_and_record m key_id rpm_limit now =
    let queue = drop_stale now (m key_id) in
    if leb rpm_limit (length queue)
    then (set_queue m key_id queue, false)
    else (set_queue m key_id (queue ++ (now ∷ [])), true)
