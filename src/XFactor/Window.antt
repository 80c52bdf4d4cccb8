-- ===== src/XFactor/Window.antt =====
-- The five-hour window of crates/proxy/src/xfactor/state.rs against the log of all requests.
use better_ccflare_rs.Base.{
  ℕ, zero, suc, ◌+◌, ◌*◌, ◌<◌, ◌≡◌, refl, sym, ap, ◌∙◌, true, false, [], ◌∷◌, ◌++◌, arith, ◌^◌,
}
use better_ccflare_rs.Base.Int.{ℤ, pos, ◌-ℤ◌, leb_ℤ}
use better_ccflare_rs.Base.Float.{F64, finite}
use better_ccflare_rs.Base.Double.{◌+f◌, max_f, leb_f}
use better_ccflare_rs.Base.Exact.{pow_pos, add_exact, max_steps}
use better_ccflare_rs.XFactor.{
  AccountCapacityState, window_5h_ms, zero_f, evict_old, on_request, evict_loop,
}
use better_ccflare_rs.XFactor.Logs.{
  Log, quarters, weighted, total, since, Ordered, evict_loop-since, since-since, since-append,
  total-append, total-since, weighted-append, since-Ordered, Log, quarters, weighted, total, since,
  Ordered, evict_loop-since, since-since, since-append, total-append, total-since, weighted-append,
  since-Ordered,
}

-- The window holds the requests since a time, and their sum.
abbrev pub Holds : Log → ℤ → AccountCapacityState → Type 0
Holds log c s =
    (s.window_5h ≡ weighted (since c log))
    × (s.proxy_tokens_5h_weighted ≡ quarters (total (since c log)))

evict_pair :
    (log : Log) (c d : ℤ) (s : AccountCapacityState)
    → Ordered log
    → total log < 2 ^ 53
    → leb_ℤ c d ≡ true
    → Holds log c s
    → evict_loop d s.window_5h s.proxy_tokens_5h_weighted
      ≡ (weighted (since d log), quarters (total (since d log)))
evict_pair log c d s o b l (w, p) =
    ap (λ x. evict_loop d x s.proxy_tokens_5h_weighted) w
    ∙ ap (evict_loop d (weighted (since c log))) p
    ∙ evict_loop-since d (since c log) (since-Ordered c log o) (omega (arith, total-since c log, b))
    ∙ ap (λ m. (weighted m, quarters (total m))) (since-since c d log l)

pub evict_old-Holds :
    (log : Log) (c : ℤ) (s : AccountCapacityState) (now_ms : ℤ)
    → Ordered log
    → total log < 2 ^ 53
    → leb_ℤ c (now_ms -ℤ window_5h_ms) ≡ true
    → Holds log c s
    → Holds log (now_ms -ℤ window_5h_ms) (evict_old s now_ms)
unfolding evict_old
evict_old-Holds log c s now_ms o b l h =
    let d : ℤ = now_ms -ℤ window_5h_ms in
    let e = evict_pair log c d s o b l h in
    (ap (λ x. x.0) e, ap (λ x. max_f x.1 zero_f) e ∙ max_steps 1072 (total (since d log)))

pub sub_below : (a : ℤ) → leb_ℤ (a -ℤ window_5h_ms) a ≡ true
unfolding ◌-ℤ◌
sub_below a = ground arith

positive_steps : (n a : ℕ) → 0 < n → 0 < a → leb_f (finite (pos (n * a))) zero_f ≡ false
positive_steps zero a p q = absurd (omega arith)
positive_steps (suc n) a p q = grind arith

counted : (n : ℕ) → 0 < n → leb_f (quarters n) zero_f ≡ false
counted n p = positive_steps n (2 ^ 1072) p (pow_pos 1072)

on_request-SameWindow :
    (s : AccountCapacityState) (t : ℤ) (w : F64)
    → leb_f w zero_f ≡ false
    → ((on_request s t w).window_5h ≡ (evict_old s t).window_5h ++ ((t, w) ∷ []))
      × ((on_request s t w).proxy_tokens_5h_weighted
          ≡ (evict_old s t).proxy_tokens_5h_weighted +f w)
unfolding on_request
on_request-SameWindow s t w h = (rw h refl, rw h refl)

since-last :
    (t : ℤ) (n : ℕ) (log : Log)
    → since (t -ℤ window_5h_ms) (log ++ ((t, n) ∷ []))
      ≡ since (t -ℤ window_5h_ms) log ++ ((t, n) ∷ [])
since-last t n log = since-append (t -ℤ window_5h_ms) log ((t, n) ∷ []) ∙ rw (sub_below t) refl

pub snoc-Holds :
    (t : ℤ) (n : ℕ) (log : Log) (s : AccountCapacityState)
    → 0 < n
    → total log + n < 2 ^ 53
    → Holds log (t -ℤ window_5h_ms) (evict_old s t)
    → Holds (log ++ ((t, n) ∷ [])) (t -ℤ window_5h_ms) (on_request s t (quarters n))
snoc-Holds t n log s p b h =
    let d : ℤ = t -ℤ window_5h_ms in
    let one : Log = (t, n) ∷ [] in
    let parts = on_request-SameWindow s t (quarters n) (counted n p) in
    let window = ap (λ l. l ++ weighted one) h.0 ∙ sym (weighted-append (since d log) one) in
    let sum =
      add_exact 1072 (total (since d log)) n (omega arith) (omega (arith, total-since d log, b)) in
    let all : total (since d log) + n ≡ total (since d log ++ one) =
      omega (arith, total-append (since d log) one) in
    (
      parts.0 ∙ window ∙ ap weighted (sym (since-last t n log)),
      parts.1
          ∙ ap (λ x. x +f quarters n) h.1
          ∙ sum
          ∙ ap quarters all
          ∙ ap (λ l. quarters (total l)) (sym (since-last t n log)),
    )
