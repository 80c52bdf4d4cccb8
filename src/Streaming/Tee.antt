-- ===== src/Streaming/Tee.antt =====
-- `TeeStream` of crates/proxy/src/streaming.rs: the client's stream with a copy for analytics. An
-- `Instant` is the milliseconds of a monotonic clock. `sent` is what went through the oneshot
-- channel so far.
use better_ccflare_rs.Base.{
  subst, sym, length-append, ℕ, ◌-◌, ◌≡◌, refl, Bool, true, false, not, ◌&&◌, List, [], ◌∷◌, ◌++◌,
  arith, ltb, if◌then◌else◌, length, ap, ◌∙◌,
}
use better_ccflare_rs.Streaming.Buffer.{
  Holds, push_all_copies, Bytes, AnalyticsBuffer, new_buffer, push_capped, analytics_max_bytes,
  flatten, push_all,
}

-- What the inner stream answers to a poll.
pub data Poll : Type 0 where
  chunk : Bytes → Poll
  failed : Poll
  ended : Poll
  pending : Poll

pub record TeeStream : Type 0 where
  pub buffer : AnalyticsBuffer
  pub stream_start : ℕ
  pub last_chunk : ℕ
  pub timed_out : Bool
  pub has_tx : Bool
  pub stream_timeout : ℕ
  pub chunk_timeout : ℕ
  pub sent : List AnalyticsBuffer

abbrev pub stream_timeout_ms : ℕ
stream_timeout_ms = 300_000

abbrev pub chunk_timeout_ms : ℕ
chunk_timeout_ms = 30_000

abbrev pub tee_stream : ℕ → TeeStream
tee_stream now = record {
  buffer = new_buffer;
  stream_start = now;
  last_chunk = now;
  timed_out = false;
  has_tx = true;
  stream_timeout = stream_timeout_ms;
  chunk_timeout = chunk_timeout_ms;
  sent = [];
}

-- The two time-out tests: the second is read only where the first fails.
unfoldable pub times_out : TeeStream → ℕ → Bool
times_out t now =
    if ltb t.stream_timeout (now - t.stream_start)
    then true
    else if ltb t.chunk_timeout (now - t.last_chunk) && not t.timed_out
    then true
    else t.timed_out

-- The arm `Ready(Some(Ok(chunk)))`.
unfoldable pub on_chunk : TeeStream → ℕ → Bytes → TeeStream
on_chunk t now c =
    let late = times_out t now in
    record t {
      timed_out = late;
      last_chunk = now;
      buffer = if not late then push_capped analytics_max_bytes t.buffer c else t.buffer;
    }

-- The arm `Ready(None)`.
unfoldable pub on_end : TeeStream → TeeStream
on_end t = record t {
  buffer = new_buffer;
  has_tx = false;
  sent = if t.has_tx then t.sent ++ (t.buffer ∷ []) else t.sent;
}

-- One poll: the new state, and what the client gets.
unfoldable pub poll_next : TeeStream → ℕ → Poll → TeeStream × Poll
poll_next t now (chunk c) = (on_chunk t now c, chunk c)
poll_next t now failed = (t, failed)
poll_next t now ended = (on_end t, ended)
poll_next t now pending = (t, pending)

-- `Drop` sends the buffer unless the end of the stream did.
unfoldable pub drop : TeeStream → TeeStream
drop t =
    if t.has_tx
    then record t { buffer = new_buffer; has_tx = false; sent = t.sent ++ (t.buffer ∷ []) }
    else t

-- The polls of a stream's life, each at its time: the state, and what the client gets.
pub polls : TeeStream → List (ℕ × Poll) → TeeStream × List Poll
polls t [] = (t, [])
polls t ((now, p) ∷ ps) =
    let (t', out) = poll_next t now p in let (t'', outs) = polls t' ps in (t'', out ∷ outs)

abbrev pub answers : List (ℕ × Poll) → List Poll
answers [] = []
answers ((now, p) ∷ ps) = p ∷ answers ps

-- The sender is gone exactly when one buffer went through the channel.
abbrev pub SentOnce : TeeStream → Type 0
SentOnce t = length t.sent ≡ (if t.has_tx then 0 else 1)

poll_next-SentOnce :
    (t : TeeStream) (now : ℕ) (p : Poll) → SentOnce t → SentOnce (poll_next t now p).0
unfolding poll_next on_chunk on_end
poll_next-SentOnce t now (chunk c) h = h
poll_next-SentOnce t now failed h = h
poll_next-SentOnce t now ended h = ground (arith, length-append t.sent (t.buffer ∷ []))
poll_next-SentOnce t now pending h = h

polls-SentOnce : (t : TeeStream) (ps : List (ℕ × Poll)) → SentOnce t → SentOnce (polls t ps).0
unfolding polls
polls-SentOnce t [] h = h
polls-SentOnce t ((now, p) ∷ ps) h =
    polls-SentOnce (poll_next t now p).0 ps (poll_next-SentOnce t now p h)

-- Whether the stream ends, fails or is dropped half-way, exactly one buffer is sent in the end.
pub one_buffer_sent :
    (start : ℕ) (ps : List (ℕ × Poll)) → length (drop (polls (tee_stream start) ps).0).sent ≡ 1
unfolding drop
one_buffer_sent start ps =
    let t = (polls (tee_stream start) ps).0 in
    ground (arith, polls-SentOnce (tee_stream start) ps refl, length-append t.sent (t.buffer ∷ []))

-- The client gets what the inner stream answers, in order, time-outs or not.
pub polls_forward : (t : TeeStream) (ps : List (ℕ × Poll)) → (polls t ps).1 ≡ answers ps
unfolding polls poll_next
polls_forward t [] = refl
polls_forward t ((now, chunk c) ∷ ps) = ap (◌∷◌ (chunk c)) (polls_forward (on_chunk t now c) ps)
polls_forward t ((now, failed) ∷ ps) = ap (◌∷◌ failed) (polls_forward t ps)
polls_forward t ((now, ended) ∷ ps) = ap (◌∷◌ ended) (polls_forward (on_end t) ps)
polls_forward t ((now, pending) ∷ ps) = ap (◌∷◌ pending) (polls_forward t ps)

-- Once late, the copy is closed: no later chunk changes the buffer.
pub timed_out_sticks :
    (t : TeeStream) (now : ℕ) (c : Bytes)
    → t.timed_out ≡ true
    → ((poll_next t now (chunk c)).0.timed_out ≡ true)
      × ((poll_next t now (chunk c)).0.buffer ≡ t.buffer)
unfolding poll_next on_chunk times_out
timed_out_sticks t now c h = ground arith

-- The chunks that come in time, with the gaps between them.
abbrev pub InTime : TeeStream → List (ℕ × Bytes) → Type 0
InTime t [] = Unit {0}
InTime t ((now, c) ∷ cs) = (times_out t now ≡ false) × InTime (on_chunk t now c) cs

abbrev pub chunks_of : List (ℕ × Bytes) → List Bytes
chunks_of [] = []
chunks_of ((now, c) ∷ cs) = c ∷ chunks_of cs

abbrev pub as_polls : List (ℕ × Bytes) → List (ℕ × Poll)
as_polls [] = []
as_polls ((now, c) ∷ cs) = (now, chunk c) ∷ as_polls cs

buffer_in_time :
    (t : TeeStream) (now : ℕ) (c : Bytes)
    → times_out t now ≡ false
    → (on_chunk t now c).buffer ≡ push_capped analytics_max_bytes t.buffer c
unfolding on_chunk
buffer_in_time t now c h = ground arith

polls-InTime :
    (t : TeeStream) (cs : List (ℕ × Bytes))
    → InTime t cs
    → (polls t (as_polls cs)).0.buffer ≡ push_all analytics_max_bytes t.buffer (chunks_of cs)
unfolding polls poll_next push_all
polls-InTime t [] h = refl
polls-InTime t ((now, c) ∷ cs) h =
    polls-InTime (on_chunk t now c) cs h.1
    ∙ ap (λ b. push_all analytics_max_bytes b (chunks_of cs)) (buffer_in_time t now c h.0)

-- While every chunk comes in time, the buffer is the stream so far, cut off at the cap.
pub polls_copy :
    (start : ℕ) (cs : List (ℕ × Bytes))
    → InTime (tee_stream start) cs
    → Holds analytics_max_bytes
        (flatten (chunks_of cs))
        (polls (tee_stream start) (as_polls cs)).0.buffer
polls_copy start cs h =
    subst (Holds analytics_max_bytes (flatten (chunks_of cs)))
      (sym (polls-InTime (tee_stream start) cs h))
      (push_all_copies analytics_max_bytes (chunks_of cs))
