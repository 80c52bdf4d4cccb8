-- ===== src/XFactor/Polls.antt =====
-- A usage poll of crates/proxy/src/xfactor/state.rs and the window.
use better_ccflare_rs.Base.{◌≡◌, refl, ◌∙◌, Bool, true, false, some, if◌then◌else◌}
use better_ccflare_rs.Base.Int.{ℤ}
use better_ccflare_rs.Base.Float.{F64}
use better_ccflare_rs.XFactor.{Math, AccountCapacityState, evict_old}
use better_ccflare_rs.XFactor.Posterior.{
  on_usage_poll, kf_advance, kf_predict_to, kf_update, measure, absorb, tighten,
}

-- A poll leaves the window as the eviction makes it.
unfoldable pub SameWindow : AccountCapacityState → AccountCapacityState → Type 0
SameWindow s t =
    (t.window_5h ≡ s.window_5h) × (t.proxy_tokens_5h_weighted ≡ s.proxy_tokens_5h_weighted)

if-SameWindow :
    (b : Bool) (s t u : AccountCapacityState)
    → SameWindow s t
    → SameWindow s u
    → SameWindow s (if b then t else u)
if-SameWindow true s t u h k = h
if-SameWindow false s t u h k = k

SameWindow-trans : (s t u : AccountCapacityState) → SameWindow s t → SameWindow t u → SameWindow s u
unfolding SameWindow
SameWindow-trans s t u h k = (k.0 ∙ h.0, k.1 ∙ h.1)

kf_predict_to-SameWindow :
    (s : AccountCapacityState) (now_ms : ℤ) → SameWindow s (kf_predict_to s now_ms)
unfolding kf_predict_to kf_advance SameWindow
kf_predict_to-SameWindow s now_ms =
    if-SameWindow _ s _ _ (refl, refl) (if-SameWindow _ s s _ (refl, refl) (refl, refl))

kf_update-SameWindow :
    (s : AccountCapacityState) (e_obs r : F64) → SameWindow s (kf_update s e_obs r)
unfolding kf_update SameWindow
kf_update-SameWindow s e_obs r = if-SameWindow _ s s _ (refl, refl) (refl, refl)

measure-SameWindow :
    (math : Math) (s : AccountCapacityState) (now_ms : ℤ) (u : F64)
    → SameWindow s (measure math s now_ms u)
unfolding measure SameWindow
measure-SameWindow math s now_ms u = if-SameWindow _ s _ s (kf_update-SameWindow s _ _) (refl, refl)

tighten-SameWindow : (s : AccountCapacityState) (u : F64) → SameWindow s (tighten s u)
unfolding tighten SameWindow
tighten-SameWindow s u = if-SameWindow _ s _ s (refl, refl) (refl, refl)

absorb-SameWindow :
    (math : Math) (s : AccountCapacityState) (lb : F64) → SameWindow s (absorb math s lb)
unfolding absorb SameWindow
absorb-SameWindow math s lb = (refl, refl)

polled-SameWindow :
    (s : AccountCapacityState) (now_ms : ℤ)
    → SameWindow s (record s { last_poll_at_ms = some now_ms; updated_at_ms = now_ms })
unfolding SameWindow
polled-SameWindow s now_ms = (refl, refl)

pub on_usage_poll-SameWindow :
    (math : Math) (s : AccountCapacityState) (now_ms : ℤ) (u : F64)
    → SameWindow (evict_old s now_ms) (on_usage_poll math s now_ms u)
unfolding on_usage_poll
on_usage_poll-SameWindow math s now_ms u =
    let polled : AccountCapacityState = record (evict_old s now_ms) {
      last_poll_at_ms = some now_ms;
      updated_at_ms = now_ms;
    } in
    let unheard = kf_predict_to-SameWindow polled now_ms in
    SameWindow-trans (evict_old s now_ms) polled _ (polled-SameWindow (evict_old s now_ms) now_ms) (
      if-SameWindow _ polled _ _
        (SameWindow-trans polled (tighten polled u) _ (tighten-SameWindow polled u)
          (kf_predict_to-SameWindow (tighten polled u) now_ms))
        (if-SameWindow _ polled _ _ unheard (
          if-SameWindow _ polled _ _ unheard (
            SameWindow-trans polled (absorb math polled _) _ (absorb-SameWindow math polled _) (
              SameWindow-trans (absorb math polled _) (kf_predict_to (absorb math polled _) now_ms)
                _ (kf_predict_to-SameWindow _ now_ms)
                (measure-SameWindow math (kf_predict_to (absorb math polled _) now_ms) now_ms
                  u))))))
