-- ===== src/Writer/Flush.antt =====
-- crates/database/src/async_writer.rs: the flush loop against the operations that were sent.
use mathlib.Core.List.{append_assoc, append-nil}
use better_ccflare_rs.Base.{
  ℕ, zero, suc, ◌≤◌, ◌<◌, ◌≡◌, refl, sym, ap, subst, ◌∙◌, ◌⊎◌, inl, inr, true, false, some, List,
  [], ◌∷◌, ◌++◌, arith, leb, if◌then◌else◌, Bool-cases, length, Option-cases, Yields, Yields-mono,
  length-append,
}
use better_ccflare_rs.Writer.{
  WriteOp, batch_size, Event, received, closed, tick, is_shutdown, Filled, fill_batch, drain,
  unless_empty, flush_loop,
}

abbrev pub flatten : {A : Type 0} → List (List A) → List A
flatten [] = []
flatten (xs ∷ xss) = xs ++ flatten xss

flatten-append :
    {A : Type 0} (xss yss : List (List A)) → flatten (xss ++ yss) ≡ flatten xss ++ flatten yss
flatten-append [] yss = refl
flatten-append (xs ∷ xss) yss =
    ap (λ zs. xs ++ zs) (flatten-append xss yss) ∙ sym (append_assoc xs (flatten xss) (flatten yss))

flatten-unless_empty : {A : Type 0} (xs : List A) → flatten (unless_empty xs) ≡ xs
flatten-unless_empty [] = refl
flatten-unless_empty (x ∷ xs) = append-nil (x ∷ xs)

module _ {R U : Type 0} where
  -- The task is told to exit, or the channel closes.
  abbrev pub Exits : List (Event (WriteOp R U)) → Type 0
  Exits [] = ⊥
  Exits (received op ∷ es) = (is_shutdown op ≡ true) ⊎ Exits es
  Exits (closed ∷ es) = Unit {0}
  Exits (tick ∷ es) = Exits es

  -- The operations that come through the channel while it is open.
  pub sent : List (Event (WriteOp R U)) → List (WriteOp R U)
  sent [] = []
  sent (received op ∷ es) = let rest = sent es in if is_shutdown op then rest else op ∷ rest
  sent (closed ∷ es) = []
  sent (tick ∷ es) = sent es

  drain-sent : (es : List (Event (WriteOp R U))) → drain es ≡ sent es
  unfolding drain sent
  drain-sent [] = refl
  drain-sent (received op ∷ es) = ap (λ r. if is_shutdown op then r else op ∷ r) (drain-sent es)
  drain-sent (closed ∷ es) = refl
  drain-sent (tick ∷ es) = drain-sent es

  -- A filled batch loses nothing, is not too large, and leaves the end to come unless it saw it.
  abbrev pub Filling :
      List (WriteOp R U) → List (Event (WriteOp R U)) → Filled (WriteOp R U) → Type 0
  Filling batch es f =
      (f.batch ++ sent f.rest ≡ batch ++ sent es)
      × (length f.batch ≤ batch_size)
      × (f.should_exit ≡ false → Exits f.rest)
      × (f.should_exit ≡ false → length f.rest ≤ length es)
      × (f.should_exit ≡ false → length batch < batch_size → length f.rest < length es)

  -- What follows for a longer list of events from the batch with one more operation.
  Filling-received :
      (batch : List (WriteOp R U)) (op : WriteOp R U) (es : List (Event (WriteOp R U)))
      → (f : Filled (WriteOp R U)) → is_shutdown op ≡ false
      → Filling (batch ++ (op ∷ [])) es f
      → Filling batch (received op ∷ es) f
  unfolding sent
  Filling-received batch op es f e (same, small, exits, shorter, _) = (
    rw e (same ∙ append_assoc batch (op ∷ []) (sent es)),
    small,
    exits,
    λ k. omega (arith, shorter k),
    λ k r. omega (arith, shorter k),
  )

  closed_sent :
      (batch : List (WriteOp R U)) (es : List (Event (WriteOp R U)))
      → batch ++ sent (closed ∷ es) ≡ batch ++ sent (closed ∷ es)
  closed_sent batch es = refl

  tick_sent :
      (batch : List (WriteOp R U)) (es : List (Event (WriteOp R U)))
      → batch ++ sent es ≡ batch ++ sent (tick ∷ es)
  unfolding sent
  tick_sent batch es = refl

  stop_sent :
      (batch : List (WriteOp R U)) (op : WriteOp R U) (es : List (Event (WriteOp R U)))
      → is_shutdown op ≡ true
      → batch ++ sent es ≡ batch ++ sent (received op ∷ es)
  unfolding sent
  stop_sent batch op es e = rw e refl

  still-Exits :
      (op : WriteOp R U) (es : List (Event (WriteOp R U)))
      → is_shutdown op ≡ false
      → Exits (received op ∷ es)
      → Exits es
  still-Exits op es e (inl k) = cc
  still-Exits op es e (inr x) = x

  fill_room :
      (batch : List (WriteOp R U)) (e : Event (WriteOp R U)) (es : List (Event (WriteOp R U)))
      → leb batch_size (length batch) ≡ false
      → Exits (e ∷ es)
      → ((b : List (WriteOp R U))
          → length b ≤ batch_size
          → Exits es
          → Yields (Filling b es) (fill_batch b es))
      → Yields (Filling batch (e ∷ es)) (fill_batch batch (e ∷ es))
  unfolding fill_batch
  fill_room batch (received op) es room x ih = elim (Bool-cases (is_shutdown op)) [
    | inl k ↦
        rw (room, fill_batch)
          (rw k (stop_sent batch op es k, ground (arith, room), λ q. cc, λ q. cc, λ q. cc))
    | inr k ↦
        let longer = batch ++ (op ∷ []) in
        let fits : length longer ≤ batch_size =
          ground (arith, room, length-append batch (op ∷ [])) in
        rw (room, fill_batch)
          (rw k (
            Yields-mono (Filling longer es) (Filling batch (received op ∷ es))
              (fill_batch longer es) (λ f. Filling-received batch op es f k)
              (ih longer fits (still-Exits op es k x))))
  ]
  fill_room batch closed es room x ih =
      rw (room, fill_batch) (closed_sent batch es, ground (arith, room), λ q. cc, λ q. cc, λ q. cc)
  fill_room batch tick es room x ih =
      rw (room, fill_batch)
        (tick_sent batch es, ground (arith, room), λ q. x, λ q. omega arith, λ q r. omega arith)

  fill_batch-Filling :
      (batch : List (WriteOp R U)) (es : List (Event (WriteOp R U)))
      → length batch ≤ batch_size
      → Exits es
      → Yields (Filling batch es) (fill_batch batch es)
  unfolding fill_batch
  fill_batch-Filling batch [] h x = absurd x
  fill_batch-Filling batch (e ∷ es) h x = elim (Bool-cases (leb batch_size (length batch))) [
    | inl full ↦
        rw (full, fill_batch)
          (refl, h, λ k. x, λ k. omega arith, λ k r. absurd (ground (arith, full, r)))
    | inr room ↦ fill_room batch e es room x (λ b. fill_batch-Filling b es)
  ]

  filled :
      (es : List (Event (WriteOp R U)))
      → Exits es
      → (f : Filled (WriteOp R U)) × (fill_batch [] es ≡ some f) × Filling [] es f
  filled es x = elim (Option-cases (fill_batch [] es)) [
    | inl e ↦ absurd (subst (Yields (Filling [] es)) e (fill_batch-Filling [] es (omega arith) x))
    | inr (f, e) ↦
        (f, e, subst (Yields (Filling [] es)) e (fill_batch-Filling [] es (omega arith) x))
  ]

  flush_loop-some :
      (fuel : ℕ) (es : List (Event (WriteOp R U))) (f : Filled (WriteOp R U))
      → fill_batch [] es ≡ some f
      → flush_loop (suc fuel) es
        ≡ unless_empty f.batch
          ++ (if f.should_exit then unless_empty (drain f.rest) else flush_loop fuel f.rest)
  unfolding flush_loop
  flush_loop-some fuel es f e = rw (e, flush_loop) refl

  flatten_round :
      (xs : List (WriteOp R U)) (yss : List (List (WriteOp R U)))
      → flatten (unless_empty xs ++ yss) ≡ xs ++ flatten yss
  flatten_round xs yss =
      flatten-append (unless_empty xs) yss ∙ ap (λ zs. zs ++ flatten yss) (flatten-unless_empty xs)

  flush_loop-sent :
      (fuel : ℕ) (es : List (Event (WriteOp R U)))
      → length es < fuel
      → Exits es
      → flatten (flush_loop fuel es) ≡ sent es
  flush_loop-sent zero es h x = absurd (omega arith)
  flush_loop-sent (suc fuel) es h x =
      let (f, e, (same, small, exits, shorter, shorter_still)) = filled es x in
      ap flatten (flush_loop-some fuel es f e) ∙ elim (Bool-cases f.should_exit) [
        | inl k ↦ rw k (
            flatten_round f.batch (unless_empty (drain f.rest))
            ∙ ap (λ zs. f.batch ++ zs) (flatten-unless_empty (drain f.rest) ∙ drain-sent f.rest)
            ∙ same)
        | inr k ↦
            let less = shorter_still k (omega arith) in
            rw k (
              flatten_round f.batch (flush_loop fuel f.rest)
              ∙ ap (λ zs. f.batch ++ zs)
                  (flush_loop-sent fuel f.rest (omega (arith, less)) (exits k))
              ∙ same)
      ]

  -- Once the task is told to exit or the channel closes, every operation that was sent through the
  -- channel has been flushed, once and in the order of sending.
  pub all_flushed :
      (es : List (Event (WriteOp R U)))
      → Exits es
      → flatten (flush_loop (suc (length es)) es) ≡ sent es
  all_flushed es x = flush_loop-sent (suc (length es)) es (omega arith) x
