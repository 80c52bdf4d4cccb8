-- ===== src/Examples/Streams.antt =====
-- The copy of a stream, its events and the queue of writes, on concrete streams.
use better_ccflare_rs.Base.{ℕ, suc, ◌≡◌, refl, inl, inr, List, [], ◌∷◌, ◌++◌, length}
use better_ccflare_rs.Streaming.Buffer.{Bytes, Holds, analytics_max_bytes}
use better_ccflare_rs.Streaming.Buffer
use better_ccflare_rs.Streaming.Tee.{
  tee_stream, chunk, ended, polls, drop, InTime, as_polls, chunks_of, times_out, on_chunk,
  polls_copy, one_buffer_sent,
}
use better_ccflare_rs.Streaming.Sse.{parse_buffer}
use better_ccflare_rs.Streaming.Chunking.{parse_buffer-cut}
use better_ccflare_rs.Writer.{
  WriteOp, set_rate_limited, shutdown, Event, received, tick, flush_loop,
}
use better_ccflare_rs.Writer.Flush.{flatten, sent, Exits, all_flushed}
use better_ccflare_rs.Base.Int.{pos}
use better_ccflare_rs.Base.Text.{codes}

abbrev timed : List (ℕ × Bytes)
timed = (10, codes "data: a") ∷ (20, 10 ∷ []) ∷ []

in_time : InTime (tee_stream 0) timed
unfolding times_out on_chunk
in_time = (refl, (refl, tt))

polls_copy_example :
    Holds analytics_max_bytes
      (Buffer.flatten (chunks_of timed))
      (polls (tee_stream 0) (as_polls timed)).0.buffer
polls_copy_example = polls_copy 0 timed in_time

one_buffer_sent_example :
    length (drop (polls (tee_stream 0) ((10, chunk (codes "x")) ∷ (20, ended) ∷ [])).0).sent ≡ 1
one_buffer_sent_example = one_buffer_sent 0 ((10, chunk (codes "x")) ∷ (20, ended) ∷ [])

parse_buffer-cut_example :
    parse_buffer (codes "da" ∷ codes "ta: a" ∷ (10 ∷ []) ∷ [])
    ≡ parse_buffer ((codes "data: a" ++ (10 ∷ [])) ∷ [])
parse_buffer-cut_example =
    parse_buffer-cut (codes "da" ∷ codes "ta: a" ∷ (10 ∷ []) ∷ [])
      ((codes "data: a" ++ (10 ∷ [])) ∷ []) refl

abbrev events : List (Event (WriteOp ℕ ℕ))
events =
    received (set_rate_limited "work" (pos 5))
    ∷ tick
    ∷ received (set_rate_limited "home" (pos 6))
    ∷ received shutdown
    ∷ received (set_rate_limited "work" (pos 7))
    ∷ []

told : Exits events
told = inr (inr (inl refl))

all_flushed_example : flatten (flush_loop (suc (length events)) events) ≡ sent events
all_flushed_example = all_flushed events told
