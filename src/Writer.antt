-- ===== src/Writer.antt =====
-- crates/database/src/async_writer.rs: the queue of database writes and the task that flushes it in
-- batches. The channel and the timer are tokio's: the sender's half is a parameter, and a run of the
-- task is the list of what its `select!` saw.
pub mod Flush
use better_ccflare_rs.Base.{
  ◌^◌, ◌%◌, ℕ, zero, suc, ◌+◌, ◌-◌, ◌*◌, ◌/◌, ◌≤◌, ◌<◌, min, max, String, ◌≡◌, refl, sym, ap, subst,
  ◌∙◌, ◌≢◌, ◌↔◌, ◌⊎◌, inl, inr, Bool, true, false, not, ◌&&◌, ◌||◌, Option, none, some, List, [],
  ◌∷◌, ◌++◌, map, arith, str_eq, str_eq_iff, ltb, leb, ◌==◌, if◌then◌else◌, Bool-cases, length,
  take, get_elem?, filter, any, In, All, Pairs, All-In, All-of_In, length-append, length-take,
}
use better_ccflare_rs.Base.Int.{ℤ}

-- `ProxyRequest` and `UsageUpdate` are rows that the writer only passes on.
pub data WriteOp (ProxyRequest UsageUpdate : Type 0) : Type 0 where
  save_request : ProxyRequest → WriteOp ProxyRequest UsageUpdate
  save_payload :
      (request_id : String) (request_body response_body : Option String)
      → WriteOp ProxyRequest UsageUpdate
  update_request_usage :
      (request_id : String) (usage : UsageUpdate) → WriteOp ProxyRequest UsageUpdate
  update_request_result :
      (request_id : String) (success : Bool) (error_message : Option String)
      (response_time_ms failover_attempts : ℤ)
      → WriteOp ProxyRequest UsageUpdate
  increment_account_usage :
      (account_id : String) (now session_duration_ms : ℤ) → WriteOp ProxyRequest UsageUpdate
  set_rate_limited : (account_id : String) (until : ℤ) → WriteOp ProxyRequest UsageUpdate
  update_rate_limit_meta :
      (account_id status : String) (reset remaining : Option ℤ) → WriteOp ProxyRequest UsageUpdate
  update_api_key_usage : (api_key_id : String) (timestamp : ℤ) → WriteOp ProxyRequest UsageUpdate
  shutdown : WriteOp ProxyRequest UsageUpdate

abbrev pub is_shutdown : {R U : Type 0} → WriteOp R U → Bool
is_shutdown shutdown = true
is_shutdown _ = false

abbrev pub channel_capacity : ℕ
channel_capacity = 1000

abbrev pub batch_size : ℕ
batch_size = 100

-- What `try_send` of the channel answers.
pub data TrySend : Type 0 where
  sent full closed_channel : TrySend

-- The sender's half of a channel of tokio, in the states of `C`.
pub record Sender (C Op : Type 0) : Type 0 where
  pub try_send : C → Op → C × TrySend
  pub capacity : C → ℕ

pub record AsyncDbWriter (C : Type 0) : Type 0 where
  pub tx : C
  pub dropped_ops : ℕ

-- A closed channel is ignored without a word, a full one is counted.
unfoldable pub send : {C Op : Type 0} → Sender C Op → AsyncDbWriter C → Op → AsyncDbWriter C
send channel w op =
    let (tx, answer) = channel.try_send w.tx op in
    elim answer [
      | sent ↦ record w { tx = tx }
      | full ↦ record { tx = tx; dropped_ops = (w.dropped_ops + 1) % 2 ^ 64 }
      | closed_channel ↦ record w { tx = tx }
    ]

unfoldable pub queued : {C Op : Type 0} → Sender C Op → AsyncDbWriter C → ℕ
queued channel w = channel_capacity - channel.capacity w.tx

-- What a round of `select!` in `fill_batch` sees.
pub data Event (Op : Type 0) : Type 0 where
  received : Op → Event Op
  closed : Event Op
  tick : Event Op

-- What `fill_batch` leaves: the batch, whether the loop is to exit, and the events to come.
pub record Filled (Op : Type 0) : Type 0 where
  pub batch : List Op
  pub should_exit : Bool
  pub rest : List (Event Op)

abbrev pub unless_empty : {Op : Type 0} → List Op → List (List Op)
unless_empty [] = []
unless_empty (op ∷ ops) = (op ∷ ops) ∷ []

module _ {R U : Type 0} where
  -- No result means that the task still waits when the events are over. A closed channel stays
  -- closed.
  unfoldable pub fill_batch :
      List (WriteOp R U) → List (Event (WriteOp R U)) → Option (Filled (WriteOp R U))
  fill_batch batch [] =
      if leb batch_size (length batch)
      then some (record { batch = batch; should_exit = false; rest = [] })
      else none
  fill_batch batch (e ∷ es) =
      let go = λ (b : List (WriteOp R U)). fill_batch b es in
      if leb batch_size (length batch)
      then some (record { batch = batch; should_exit = false; rest = e ∷ es })
      else elim e [
        | received op ↦
            if is_shutdown op
            then some (record { batch = batch; should_exit = true; rest = es })
            else go (batch ++ (op ∷ []))
        | closed ↦ some (record { batch = batch; should_exit = true; rest = closed ∷ es })
        | tick ↦ some (record { batch = batch; should_exit = false; rest = es })
      ]

  -- The loop of `try_recv`: it takes what is in the channel and reads no timer.
  unfoldable pub drain : List (Event (WriteOp R U)) → List (WriteOp R U)
  drain [] = []
  drain (received op ∷ es) = let rest = drain es in if is_shutdown op then rest else op ∷ rest
  drain (closed ∷ es) = []
  drain (tick ∷ es) = drain es

  -- The batches that `flush_loop` passes to `flush_batch`, in order. Each round takes an event, so
  -- one more than their number is fuel enough.
  unfoldable pub flush_loop : ℕ → List (Event (WriteOp R U)) → List (List (WriteOp R U))
  flush_loop zero es = []
  flush_loop (suc fuel) es = elim (fill_batch [] es) [
    | none ↦ []
    | some f ↦
        let next = flush_loop fuel f.rest in
        unless_empty f.batch ++ (if f.should_exit then unless_empty (drain f.rest) else next)
  ]
