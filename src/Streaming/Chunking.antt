-- ===== src/Streaming/Chunking.antt =====
-- `SseParser` of crates/proxy/src/streaming.rs: the parser as a machine on single bytes.
use mathlib.Core.List.{append_assoc, append-nil}
use better_ccflare_rs.Base.{
  subst, ℕ, zero, suc, ◌<◌, ◌≡◌, refl, sym, ap, ◌∙◌, true, false, Option, none, some, List, [], ◌∷◌,
  ◌++◌, length, length-append, ◌==◌, arith, Bool-cases, inl, inr, All,
}
use better_ccflare_rs.Streaming.Buffer.{Bytes, flatten}
use better_ccflare_rs.Streaming.Sse.{
  SseEvent, SseParser, new_parser, process_line, split_line, feed_loop, feed, flush, feed_all,
  parse_buffer,
}

-- The parser as a machine that reads one byte at a time: `line` is the line so far.
pub scan : Option (List ℕ) → Bytes → Bytes → SseParser × List SseEvent
scan event line [] = (record { byte_buffer = line; current_event = event }, [])
scan event line (b ∷ bs) = elim (b == 10) [
  | true ↦
      let (event', es) = process_line event line in let (p, fs) = scan event' [] bs in (p, es ++ fs)
  | false ↦ scan event (line ++ (b ∷ [])) bs
]

-- No byte of the line is a line feed.
abbrev pub Unbroken : Bytes → Type 0
Unbroken = All (λ b. (b == 10) ≡ false)

split_line-none : (line : Bytes) → Unbroken line → split_line line ≡ none
unfolding split_line
split_line-none [] u = refl
split_line-none (b ∷ bs) u = rw u.0 (rw (split_line-none bs u.1) refl)

split_line-some :
    (line rest : Bytes) → Unbroken line → split_line (line ++ (10 ∷ rest)) ≡ some (line, rest)
unfolding split_line
split_line-some [] rest u = refl
split_line-some (b ∷ bs) rest u = rw u.0 (rw (split_line-some bs rest u.1) refl)

Unbroken-append :
    (line : Bytes) (b : ℕ) → Unbroken line → (b == 10) ≡ false → Unbroken (line ++ (b ∷ []))
Unbroken-append [] b u e = (e, tt)
Unbroken-append (c ∷ cs) b u e = (u.0, Unbroken-append cs b u.1 e)

-- One byte of the machine.
scan-feed_line :
    (event : Option (List ℕ)) (line : Bytes) (b : ℕ) (bs : Bytes)
    → (b == 10) ≡ true
    → scan event line (b ∷ bs) ≡ (
      (scan (process_line event line).0 [] bs).0,
      (process_line event line).1 ++ (scan (process_line event line).0 [] bs).1,
    )
unfolding scan
scan-feed_line event line b bs e = rw (e, scan) refl

scan-other :
    (event : Option (List ℕ)) (line : Bytes) (b : ℕ) (bs : Bytes)
    → (b == 10) ≡ false
    → scan event line (b ∷ bs) ≡ scan event (line ++ (b ∷ [])) bs
unfolding scan
scan-other event line b bs e = rw (e, scan) refl

-- The result of the loop, as the machine gives it.
abbrev pub after : List SseEvent → SseParser × List SseEvent → SseParser × List SseEvent
after events r = (r.0, events ++ r.1)

feed_loop-line :
    (fuel : ℕ) (event : Option (List ℕ)) (line rest : Bytes) (events : List SseEvent)
    → Unbroken line
    → feed_loop
        (suc fuel)
        (record { byte_buffer = line ++ (10 ∷ rest); current_event = event })
        events
      ≡ feed_loop fuel
          (record { byte_buffer = rest; current_event = (process_line event line).0 })
          (events ++ (process_line event line).1)
unfolding feed_loop
feed_loop-line fuel event line rest events u = rw (split_line-some line rest u, feed_loop) refl

feed_loop-none :
    (fuel : ℕ) (event : Option (List ℕ)) (line : Bytes) (events : List SseEvent)
    → Unbroken line
    → feed_loop (suc fuel) (record { byte_buffer = line ++ []; current_event = event }) events
      ≡ after events (scan event line [])
unfolding scan feed_loop
feed_loop-none fuel event line events u = rw (append-nil line) (
    rw (split_line-none line u, feed_loop)
      (ap (λ es. (record { byte_buffer = line; current_event = event }, es))
        (sym (append-nil events))))

-- The loop of `feed` is the machine, given fuel for the bytes that are left.
feed_loop-scan :
    (bs : Bytes) (fuel : ℕ) (event : Option (List ℕ)) (line : Bytes) (events : List SseEvent)
    → Unbroken line
    → length bs < fuel
    → feed_loop fuel (record { byte_buffer = line ++ bs; current_event = event }) events
      ≡ after events (scan event line bs)
feed_loop-scan bs zero event line events u h = absurd (omega arith)
feed_loop-scan [] (suc fuel) event line events u h = feed_loop-none fuel event line events u
feed_loop-scan (b ∷ bs) (suc fuel) event line events u h = elim (Bool-cases (b == 10)) [
  | inl e ↦
      let is_feed : 10 ≡ b = ground arith in
      let es = (process_line event line).1 in
      let next = scan (process_line event line).0 [] bs in
      let ih =
        feed_loop-scan bs fuel (process_line event line).0 [] (events ++ es) tt (omega arith) in
      subst
        (λ n.
          feed_loop (suc fuel) (record { byte_buffer = line ++ (n ∷ bs); current_event = event })
            events
          ≡ after events (scan event line (n ∷ bs)))
        is_feed
        (feed_loop-line fuel event line bs events u
          ∙ ih
          ∙ ap (λ fs. (next.0, fs)) (append_assoc events es next.1)
          ∙ ap (after events) (sym (scan-feed_line event line 10 bs refl)))
  | inr e ↦
      let ih =
        feed_loop-scan bs (suc fuel) event (line ++ (b ∷ [])) events (Unbroken-append line b u e)
          (omega arith) in
      ap (λ l. feed_loop (suc fuel) (record { byte_buffer = l; current_event = event }) events)
        (sym (append_assoc line (b ∷ []) bs))
      ∙ ih
      ∙ ap (after events) (sym (scan-other event line b bs e))
]

scan_nil :
    (event : Option (List ℕ)) (line : Bytes)
    → Unbroken line
    → Unbroken (scan event line []).0.byte_buffer
unfolding scan
scan_nil event line u = u

-- The buffer of the machine never holds a line feed.
scan-Unbroken :
    (bs : Bytes) (event : Option (List ℕ)) (line : Bytes)
    → Unbroken line
    → Unbroken (scan event line bs).0.byte_buffer
scan-Unbroken [] event line u = scan_nil event line u
scan-Unbroken (b ∷ bs) event line u = elim (Bool-cases (b == 10)) [
  | inl e ↦
      rw (scan-feed_line event line b bs e) (scan-Unbroken bs (process_line event line).0 [] tt)
  | inr e ↦
      rw (scan-other event line b bs e)
        (scan-Unbroken bs event (line ++ (b ∷ [])) (Unbroken-append line b u e))
]

-- The machine goes on where it stopped.
abbrev pub resume : SseParser × List SseEvent → Bytes → SseParser × List SseEvent
resume r bs = after r.1 (scan r.0.current_event r.0.byte_buffer bs)

resume-after :
    (es : List SseEvent) (r : SseParser × List SseEvent) (bs : Bytes)
    → after es (resume r bs) ≡ resume (after es r) bs
resume-after es r bs =
    let q = scan r.0.current_event r.0.byte_buffer bs in
    ap (λ fs. (q.0, fs)) (sym (append_assoc es r.1 q.1))

resume_nil :
    (event : Option (List ℕ)) (line : Bytes) (bs : Bytes)
    → scan event line bs ≡ resume (scan event line []) bs
unfolding scan
resume_nil event line bs = refl

scan-append :
    (xs bs : Bytes) (event : Option (List ℕ)) (line : Bytes)
    → scan event line (xs ++ bs) ≡ resume (scan event line xs) bs
scan-append [] bs event line = resume_nil event line bs
scan-append (x ∷ xs) bs event line = elim (Bool-cases (x == 10)) [
  | inl e ↦
      let es = (process_line event line).1 in
      scan-feed_line event line x (xs ++ bs) e
      ∙ ap (after es) (scan-append xs bs (process_line event line).0 [])
      ∙ resume-after es (scan (process_line event line).0 [] xs) bs
      ∙ ap (λ r. resume r bs) (sym (scan-feed_line event line x xs e))
  | inr e ↦
      scan-other event line x (xs ++ bs) e
      ∙ scan-append xs bs event (line ++ (x ∷ []))
      ∙ ap (λ r. resume r bs) (sym (scan-other event line x xs e))
]

-- A parser between two calls holds no complete line.
feed-scan :
    (p : SseParser) (c : Bytes)
    → Unbroken p.byte_buffer
    → feed p c ≡ scan p.current_event p.byte_buffer c
unfolding feed
feed-scan p c u =
    feed_loop-scan c (suc (length (p.byte_buffer ++ c))) p.current_event p.byte_buffer [] u
      (ground (arith, length-append p.byte_buffer c))

feed_all-scan :
    (cs : List Bytes) (p : SseParser)
    → Unbroken p.byte_buffer
    → feed_all p cs ≡ scan p.current_event p.byte_buffer (flatten cs)
unfolding feed_all scan
feed_all-scan [] p u = refl
feed_all-scan (c ∷ cs) p u =
    let r = scan p.current_event p.byte_buffer c in
    ap (λ q. after q.1 (feed_all q.0 cs)) (feed-scan p c u)
    ∙ ap (after r.1) (feed_all-scan cs r.0 (scan-Unbroken c p.current_event p.byte_buffer u))
    ∙ sym (scan-append c (flatten cs) p.current_event p.byte_buffer)

-- However the bytes are cut into chunks, in the middle of a line or of a character, the parser
-- yields the same events.
pub parse_buffer-cut :
    (cs ds : List Bytes) → flatten cs ≡ flatten ds → parse_buffer cs ≡ parse_buffer ds
unfolding parse_buffer
parse_buffer-cut cs ds e =
    ap (λ r. r.1 ++ (flush r.0).1)
      (feed_all-scan cs new_parser tt ∙ ap (scan none []) e ∙ sym (feed_all-scan ds new_parser tt))
