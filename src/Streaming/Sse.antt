-- ===== src/Streaming/Sse.antt =====
-- `SseParser` of crates/proxy/src/streaming.rs: lines of server-sent events from chunks of bytes.
use better_ccflare_rs.Base.{
  ℕ, zero, suc, Option, none, some, List, [], ◌∷◌, ◌++◌, length, ◌==◌, if◌then◌else◌, and_then,
}
use better_ccflare_rs.Base.Text.{codes, from_utf8, strip_prefix, trim}
use better_ccflare_rs.Streaming.Buffer.{Bytes}

-- Texts are lists of code points.
pub record SseEvent : Type 0 where
  pub event_type : Option (List ℕ)
  pub payload : List ℕ

pub record SseParser : Type 0 where
  pub byte_buffer : Bytes
  pub current_event : Option (List ℕ)

abbrev pub new_parser : SseParser
new_parser = record { byte_buffer = []; current_event = none }

-- `strip_suffix(b"\r").unwrap_or(..)`.
unfoldable pub strip_cr : Bytes → Bytes
strip_cr [] = []
strip_cr (b ∷ []) = if b == 13 then [] else b ∷ []
strip_cr (b ∷ c ∷ bs) = b ∷ strip_cr (c ∷ bs)

abbrev pub or_prefix : List ℕ → List ℕ → List ℕ → Option (List ℕ)
or_prefix p q line = elim (strip_prefix p line) [
  | none ↦ strip_prefix q line
  | some rest ↦ some rest
]

-- The two field tests on a line that is text.
unfoldable pub process_text : Option (List ℕ) → List ℕ → Option (List ℕ) × List SseEvent
unfolding strip_prefix trim
process_text event line = elim (or_prefix (codes "event: ") (codes "event:") line) [
  | some event_type ↦ (some (trim event_type), [])
  | none ↦ elim (or_prefix (codes "data: ") (codes "data:") line) [
    | some payload ↦ (event, (record { event_type = event; payload = payload }) ∷ [])
    | none ↦ (event, [])
  ]
]

unfoldable pub process_line : Option (List ℕ) → Bytes → Option (List ℕ) × List SseEvent
unfolding process_text strip_cr from_utf8
process_line event line_bytes = elim (strip_cr line_bytes) [
  | [] ↦ (none, [])
  | b ∷ bs ↦ elim (from_utf8 (b ∷ bs)) [ none ↦ (event, []) | some line ↦ process_text event line ]
]

-- `position(|b| b == b'\n')` with `drain(..pos)` and `remove(0)`: the line and what follows.
unfoldable pub split_line : Bytes → Option (Bytes × Bytes)
split_line [] = none
split_line (b ∷ bs) =
    let rest = split_line bs in
    if b == 10 then some ([], bs) else and_then rest (λ r. some (b ∷ r.0, r.1))

-- The `loop` of `feed`. Each round takes a line feed out of the buffer, so its length is fuel enough.
unfoldable pub feed_loop : ℕ → SseParser → List SseEvent → SseParser × List SseEvent
feed_loop zero p events = (p, events)
feed_loop (suc fuel) p events = elim (split_line p.byte_buffer) [
  | none ↦ (p, events)
  | some (line, rest) ↦
      feed_loop fuel
        (record { byte_buffer = rest; current_event = (process_line p.current_event line).0 })
        (events ++ (process_line p.current_event line).1)
]

unfoldable pub feed : SseParser → Bytes → SseParser × List SseEvent
unfolding feed_loop split_line
feed p chunk =
    let buffer = p.byte_buffer ++ chunk in
    feed_loop (suc (length buffer)) (record p { byte_buffer = buffer }) []

unfoldable pub flush : SseParser → SseParser × List SseEvent
flush p = elim p.byte_buffer [
  | [] ↦ (p, [])
  | b ∷ bs ↦ (
    record { byte_buffer = []; current_event = (process_line p.current_event (b ∷ bs)).0 },
    (process_line p.current_event (b ∷ bs)).1,
  )
]

-- The calls of `extract_usage_from_buffer`: every chunk is fed, then the rest is flushed.
unfoldable pub feed_all : SseParser → List Bytes → SseParser × List SseEvent
feed_all p [] = (p, [])
feed_all p (c ∷ cs) = let (q, es) = feed p c in let (r, fs) = feed_all q cs in (r, es ++ fs)

unfoldable pub parse_buffer : List Bytes → List SseEvent
parse_buffer cs = let (p, es) = feed_all new_parser cs in es ++ (flush p).1
