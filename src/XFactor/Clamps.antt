-- ===== src/XFactor/Clamps.antt =====
-- What the capacity state of crates/proxy/src/xfactor/state.rs keeps, however the arithmetic rounds.
use better_ccflare_rs.Base.{
  ◌≡◌, refl, sym, subst, ◌≢◌, inl, inr, Bool, true, false, some, List, [], ◌∷◌, arith,
  if◌then◌else◌, Bool-cases, All,
}
use better_ccflare_rs.Base.Int.{ℤ, pos, ◌-ℤ◌, ◌+ℤ◌, eq_ℤ}
use better_ccflare_rs.Base.Float.{F64, nan}
use better_ccflare_rs.Base.Double.{lit, ◌+f◌, ◌*f◌, leb_f, ltb_f, positive, rounded}
use better_ccflare_rs.Base.Exact.{max-bound, min-bound}
use better_ccflare_rs.XFactor.{
  Math, AccountCapacityState, window_5h_ms, zero_f, evict_old, on_request, evict_loop,
}
use better_ccflare_rs.XFactor.Posterior.{
  kf_e_floor, minus_5000, hundred, n_eff_ceiling, kf_advance, kf_predict_to, kf_update, measure,
  absorb, tighten, on_usage_poll,
}

-- The external usage is at least -5,000 and its rate at least 0, the covariance is symmetric, the
-- sample count is at most 100 and the sum of the window at least 0.
abbrev pub Clamped : AccountCapacityState → Type 0
Clamped s =
    (leb_f kf_e_floor s.kf_e ≡ true)
    × (leb_f zero_f s.kf_e_dot ≡ true)
    × (s.kf_p01 ≡ s.kf_p10)
    × (leb_f s.n_eff n_eff_ceiling ≡ true)
    × (leb_f zero_f s.proxy_tokens_5h_weighted ≡ true)

-- The two events of an account.
pub data Event : Type 0 where
  requests : ℤ → F64 → Event
  polls : ℤ → F64 → Event

unfoldable pub on_event : Math → AccountCapacityState → Event → AccountCapacityState
on_event math s (requests now_ms weighted) = on_request s now_ms weighted
on_event math s (polls now_ms u) = on_usage_poll math s now_ms u

unfoldable pub run : Math → AccountCapacityState → List Event → AccountCapacityState
run math s [] = s
run math s (e ∷ events) = run math (on_event math s e) events

add_positive :
    (x w : F64)
    → leb_f zero_f x ≡ true
    → leb_f w zero_f ≡ false
    → w ≢ nan
    → leb_f zero_f (x +f w) ≡ true
unfolding ◌+f◌ rounded positive ◌+ℤ◌
add_positive x w h k n = ground (arith, h, k, n)

evict_old-Clamped :
    (s : AccountCapacityState) (now_ms : ℤ) → Clamped s → Clamped (evict_old s now_ms)
unfolding evict_old
evict_old-Clamped s now_ms (e, d, p, n, t) = (
  e,
  d,
  p,
  n,
  max-bound (evict_loop (now_ms -ℤ window_5h_ms) s.window_5h s.proxy_tokens_5h_weighted).1 (pos 0),
)

on_request-Clamped :
    (s : AccountCapacityState) (now_ms : ℤ) (w : F64)
    → w ≢ nan
    → Clamped s
    → Clamped (on_request s now_ms w)
unfolding on_request
on_request-Clamped s now_ms w k c = elim (Bool-cases (leb_f w zero_f)) [
  | inl q ↦ rw q c
  | inr q ↦
      let (e, d, p, n, t) = evict_old-Clamped s now_ms c in
      rw q (e, d, p, n, add_positive _ w t q k)
]

kf_advance-Clamped :
    (s : AccountCapacityState) (dt : F64) (now_ms : ℤ)
    → Clamped s
    → Clamped (kf_advance s dt now_ms)
unfolding kf_advance
kf_advance-Clamped s dt now_ms (e, d, p, n, t) =
    (max-bound (s.kf_e +f s.kf_e_dot *f dt) minus_5000, max-bound s.kf_e_dot (pos 0), refl, n, t)

if-Clamped :
    (b : Bool) (s t : AccountCapacityState) → Clamped s → Clamped t → Clamped (if b then s else t)
if-Clamped true s t c d = c
if-Clamped false s t c d = d

kf_predict_to-Clamped :
    (s : AccountCapacityState) (now_ms : ℤ) → Clamped s → Clamped (kf_predict_to s now_ms)
unfolding kf_predict_to
kf_predict_to-Clamped s now_ms c =
    if-Clamped (eq_ℤ s.last_kf_predict_ms (pos 0)) _ _ c
      (if-Clamped _ s _ c (kf_advance-Clamped s _ now_ms c))

-- The update keeps all but the two clamps, which the measurement sets again.
kf_update-symmetric :
    (s : AccountCapacityState) (e_obs r : F64)
    → s.kf_p01 ≡ s.kf_p10
    → (kf_update s e_obs r).kf_p01 ≡ (kf_update s e_obs r).kf_p10
unfolding kf_update
kf_update-symmetric s e_obs r h = ground (arith, h)

kf_update-keeps :
    (s : AccountCapacityState) (e_obs r : F64)
    → ((kf_update s e_obs r).n_eff ≡ s.n_eff)
      × ((kf_update s e_obs r).proxy_tokens_5h_weighted ≡ s.proxy_tokens_5h_weighted)
unfolding kf_update
kf_update-keeps s e_obs r = ground arith

measure-Clamped :
    (math : Math) (s : AccountCapacityState) (now_ms : ℤ) (u : F64)
    → Clamped s
    → Clamped (measure math s now_ms u)
unfolding measure
measure-Clamped math s now_ms u (e, d, p, n, t) =
    if-Clamped (leb_f (lit 5 1) s.n_eff) _ s
      (
        max-bound (kf_update s _ _).kf_e minus_5000,
        max-bound (kf_update s _ _).kf_e_dot (pos 0),
        kf_update-symmetric s _ _ p,
        subst (λ x. leb_f x n_eff_ceiling ≡ true) (sym (kf_update-keeps s _ _).0) n,
        subst (λ x. leb_f zero_f x ≡ true) (sym (kf_update-keeps s _ _).1) t,
      )
      (e, d, p, n, t)

absorb-Clamped :
    (math : Math) (s : AccountCapacityState) (lb : F64) → Clamped s → Clamped (absorb math s lb)
unfolding absorb
absorb-Clamped math s lb (e, d, p, n, t) = (e, d, p, min-bound (s.n_eff +f lit 3 10) hundred, t)

tighten-Clamped : (s : AccountCapacityState) (u : F64) → Clamped s → Clamped (tighten s u)
unfolding tighten
tighten-Clamped s u c = if-Clamped (ltb_f zero_f s.proxy_tokens_5h_weighted) _ s c c

on_usage_poll-Clamped :
    (math : Math) (s : AccountCapacityState) (now_ms : ℤ) (u : F64)
    → Clamped s
    → Clamped (on_usage_poll math s now_ms u)
unfolding on_usage_poll
on_usage_poll-Clamped math s now_ms u c =
    let old = evict_old-Clamped s now_ms c in
    let polled : AccountCapacityState = record (evict_old s now_ms) {
      last_poll_at_ms = some now_ms;
      updated_at_ms = now_ms;
    } in
    let unheard = kf_predict_to-Clamped polled now_ms old in
    if-Clamped (leb_f (lit 95 1) u) _ _
      (kf_predict_to-Clamped (tighten polled u) now_ms (tighten-Clamped polled u old))
      (if-Clamped (ltb_f u (lit 5 1)) _ _ unheard (
        if-Clamped _ _ _ unheard (
          measure-Clamped math _ now_ms u (
            kf_predict_to-Clamped (absorb math polled _) now_ms
              (absorb-Clamped math polled _ old)))))

-- A weight that is a number: what the proxy records is one, a whole number times a model's weight.
abbrev pub IsNumber : Event → Type 0
IsNumber (requests now_ms weighted) = weighted ≢ nan
IsNumber (polls now_ms u) = Unit

on_event-Clamped :
    (math : Math) (s : AccountCapacityState) (e : Event)
    → IsNumber e
    → Clamped s
    → Clamped (on_event math s e)
unfolding on_event
on_event-Clamped math s (requests now_ms w) k c = on_request-Clamped s now_ms w k c
on_event-Clamped math s (polls now_ms u) k c = on_usage_poll-Clamped math s now_ms u c

-- Whatever requests and polls an account sees, polls that are not a number included, and however the
-- arithmetic rounds: from a state within the clamps the estimate of external usage stays at least
-- -5,000 and its rate at least 0, the covariance stays symmetric, the sample count at most 100 and
-- the sum of the window at least 0. The weights of the requests are to be numbers.
pub run-Clamped :
    (math : Math) (s : AccountCapacityState) (events : List Event)
    → All IsNumber events
    → Clamped s
    → Clamped (run math s events)
unfolding run
run-Clamped math s [] k c = c
run-Clamped math s (e ∷ events) k c =
    run-Clamped math (on_event math s e) events k.1 (on_event-Clamped math s e k.0 c)
