-- ===== src/XFactor/Logs.antt =====
-- Logs of requests, for the five-hour window of crates/proxy/src/xfactor/state.rs. Weights
-- are whole numbers of quarter tokens, as the models' weights of 4, 1 and 1/4 make them.
use better_ccflare_rs.Base.{
  ℕ, ◌+◌, ◌≤◌, ◌<◌, ◌≡◌, refl, sym, ap, ◌∙◌, inl, inr, Bool, true, false, List, [], ◌∷◌, ◌++◌, map,
  arith, if◌then◌else◌, Bool-cases, filter, All, Pairs, ◌^◌,
}
use better_ccflare_rs.Base.Int.{ℤ, ltb_ℤ, leb_ℤ}
use better_ccflare_rs.Base.Float.{F64}
use better_ccflare_rs.Base.Exact.{steps_of, sub_exact}
use better_ccflare_rs.XFactor.{evict_loop}

-- A quarter token is 2 ^ 1072 steps of the smallest double.
abbrev pub quarters : ℕ → F64
quarters n = steps_of 1072 n

abbrev pub Log : Type 0
Log = List (ℤ × ℕ)

abbrev pub weighted : Log → List (ℤ × F64)
weighted = map (λ r. (r.0, quarters r.1))

abbrev pub total : Log → ℕ
total [] = 0
total (r ∷ log) = r.1 + total log

-- The requests at or after a time.
abbrev pub since : ℤ → Log → Log
since c = filter (λ r. leb_ℤ c r.0)

abbrev pub Ordered : Log → Type 0
Ordered = Pairs (λ a b. leb_ℤ a.0 b.0 ≡ true)

pub leb_trans : (a b c : ℤ) → leb_ℤ a b ≡ true → leb_ℤ b c ≡ true → leb_ℤ a c ≡ true
leb_trans a b c h k = ground (arith, h, k)

not_before : (a b : ℤ) → ltb_ℤ a b ≡ false → leb_ℤ b a ≡ true
not_before a b h = ground (arith, h)

before : (a b : ℤ) → ltb_ℤ a b ≡ true → leb_ℤ b a ≡ false
before a b h = ground (arith, h)

pub since-All : (c : ℤ) (log : Log) → All (λ r. leb_ℤ c r.0 ≡ true) log → since c log ≡ log
since-All c [] h = refl
since-All c (r ∷ log) h = rw (h.0) (ap (◌∷◌ r) (since-All c log h.1))

pub All-trans :
    (c t : ℤ) (log : Log)
    → leb_ℤ c t ≡ true
    → All (λ r. leb_ℤ t r.0 ≡ true) log
    → All (λ r. leb_ℤ c r.0 ≡ true) log
All-trans c t [] h k = tt
All-trans c t (r ∷ log) h k = (leb_trans c t r.0 h k.0, All-trans c t log h k.1)

-- On a log in order the loop leaves the requests since the cutoff, and their exact sum.
pub evict_loop-since :
    (c : ℤ) (log : Log)
    → Ordered log
    → total log < 2 ^ 53
    → evict_loop c (weighted log) (quarters (total log))
      ≡ (weighted (since c log), quarters (total (since c log)))
unfolding evict_loop
evict_loop-since c [] o h = refl
evict_loop-since c ((t, n) ∷ log) o h = elim (Bool-cases (ltb_ℤ t c)) [
  | inl e ↦
      let gone = before t c e in
      let rest = evict_loop-since c log o.1 (omega arith) in
      let less = sub_exact 1072 n (total log) (omega arith) h in
      rw (e, evict_loop) (rw gone (ap (evict_loop c (weighted log)) less ∙ rest))
  | inr e ↦
      let kept =
        since-All c ((t, n) ∷ log) (not_before t c e, All-trans c t log (not_before t c e) o.0) in
      rw (e, evict_loop) (ap (λ l. (weighted l, quarters (total l))) (sym kept))
]

kept-both :
    {l m : Log} (r : ℤ × ℕ) (b : Bool) → l ≡ m → (if b then r ∷ l else l) ≡ (if b then r ∷ m else m)
kept-both r true h = ap (◌∷◌ r) h
kept-both r false h = h

-- A later cutoff, an appended request.
pub since-since : (c d : ℤ) (log : Log) → leb_ℤ c d ≡ true → since d (since c log) ≡ since d log
since-since c d [] h = refl
since-since c d (r ∷ log) h = elim (Bool-cases (leb_ℤ c r.0)) [
  | inl e ↦ rw e (kept-both r (leb_ℤ d r.0) (since-since c d log h))
  | inr e ↦ rw e (rw (earlier c d r.0 h e) (since-since c d log h))
]
  where
    earlier : (c d t : ℤ) → leb_ℤ c d ≡ true → leb_ℤ c t ≡ false → leb_ℤ d t ≡ false
    earlier c d t h e = ground (arith, h, e)

pub since-append : (c : ℤ) (log more : Log) → since c (log ++ more) ≡ since c log ++ since c more
since-append c [] more = refl
since-append c (r ∷ log) more = ground (arith, since-append c log more)

pub total-append : (log more : Log) → total (log ++ more) ≡ total log + total more
total-append [] more = omega arith
total-append (r ∷ log) more = omega (arith, total-append log more)

pub total-since : (c : ℤ) (log : Log) → total (since c log) ≤ total log
total-since c [] = omega arith
total-since c (r ∷ log) = ground (arith, total-since c log)

pub weighted-append : (log more : Log) → weighted (log ++ more) ≡ weighted log ++ weighted more
weighted-append [] more = refl
weighted-append (r ∷ log) more = ap (◌∷◌ (r.0, quarters r.1)) (weighted-append log more)

pub All-snoc :
    (P : ℤ × ℕ → Type 0) (log : Log) (r : ℤ × ℕ) → All P log → P r → All P (log ++ (r ∷ []))
All-snoc P [] r h p = (p, tt)
All-snoc P (q ∷ log) r h p = (h.0, All-snoc P log r h.1 p)

pub All-since : (P : ℤ × ℕ → Type 0) (c : ℤ) (log : Log) → All P log → All P (since c log)
All-since P c [] h = h
All-since P c (r ∷ log) h = elim (Bool-cases (leb_ℤ c r.0)) [
  | inl e ↦ rw e (h.0, All-since P c log h.1)
  | inr e ↦ rw e (All-since P c log h.1)
]

pub since-Ordered : (c : ℤ) (log : Log) → Ordered log → Ordered (since c log)
since-Ordered c [] o = o
since-Ordered c (r ∷ log) o = elim (Bool-cases (leb_ℤ c r.0)) [
  | inl e ↦ rw e (All-since _ c log o.0, since-Ordered c log o.1)
  | inr e ↦ rw e (since-Ordered c log o.1)
]

pub append-Ordered :
    (log : Log) (t : ℤ) (n : ℕ)
    → Ordered log
    → All (λ r. leb_ℤ r.0 t ≡ true) log
    → Ordered (log ++ ((t, n) ∷ []))
append-Ordered [] t n o u = (tt, tt)
append-Ordered (r ∷ log) t n o u = (All-snoc _ log (t, n) o.0 u.0, append-Ordered log t n o.1 u.1)
