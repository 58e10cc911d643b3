-- ===== src/Proxy/SpendWriter/Flow.antt =====
-- Which events reach the database, and in what order.
use mathlib.Core.Bool.{false≢true}
use mathlib.Core.List.{append_assoc, append-nil}
use budget_governor.Prelude.{
  ℕ, suc, ◌≤◌, ◌<◌, Bool, true, false, List, [], ◌∷◌, ◌++◌, ◌≡◌, refl, sym, ◌∙◌, ap, inl, inr,
  arith, length, length-append, leb, ltb, ltb→lt, Bool-cases, if◌then◌else◌,
}
use budget_governor.Proxy.SpendWriter.{
  SpendEvent, SpendWriter, Step, stamp, enqueue, receive, tick, leave, new_spend_writer,
  enqueue_event, flush_batch, flush, receive_from, drain_remaining, step, run,
}

module _ {F : Type 0} where
  -- The queue and the batch are within their bounds, and every event that was accepted is, in the
  -- order of acceptance, submitted, in the batch or in the queue.
  pub record IsFlow (w : SpendWriter F) : Type 0 where
    pub in_order : w.submitted ++ (w.batch ++ w.queue) ≡ w.accepted
    pub queue_bound : length w.queue ≤ w.capacity
    pub batch_bound : length w.batch < w.batch_size

  flush-IsFlow :
      (ok : Bool) (w : SpendWriter F) (b : List (SpendEvent F))
      → b ≡ w.batch
      → w.submitted ++ (w.batch ++ w.queue) ≡ w.accepted
      → length w.queue ≤ w.capacity
      → 0 < w.batch_size
      → IsFlow (flush_batch ok b w)
  unfolding flush_batch
  flush-IsFlow ok w [] e flow bound room =
      let none_left : length w.batch ≡ 0 = ap length (sym e) in
      record { in_order = flow; queue_bound = bound; batch_bound = omega (arith, none_left, room) }
  flush-IsFlow ok w (x ∷ b) e flow bound room = record {
    in_order =
        append_assoc w.submitted (x ∷ b) w.queue ∙ ap (λ y. w.submitted ++ (y ++ w.queue)) e ∙ flow;
    queue_bound = bound;
    batch_bound = room;
  }

  -- One more event at the end.
  snoc_flow :
      (submitted batch queue accepted : List (SpendEvent F)) (e : SpendEvent F)
      → submitted ++ (batch ++ queue) ≡ accepted
      → submitted ++ (batch ++ (queue ++ e ∷ [])) ≡ accepted ++ e ∷ []
  snoc_flow submitted batch queue accepted e h =
      ap (◌++◌ submitted) (sym (append_assoc batch queue (e ∷ [])))
      ∙ sym (append_assoc submitted (batch ++ queue) (e ∷ []))
      ∙ ap (λ y. y ++ e ∷ []) h

  enqueue-IsFlow :
      (e : SpendEvent F) (now : ℕ) (w : SpendWriter F) → IsFlow w → IsFlow (enqueue_event e now w)
  unfolding enqueue_event
  enqueue-IsFlow e now w f = elim (Bool-cases (ltb (length w.queue) w.capacity)) [
    | inl room ↦ rw room (record {
      in_order = snoc_flow w.submitted w.batch w.queue w.accepted _ f.in_order;
      queue_bound =
          let e' = record e { created_at = stamp e.created_at now } in
          omega (arith, length-append w.queue (e' ∷ []), ltb→lt (length w.queue) w.capacity room);
      batch_bound = f.batch_bound;
    })
    | inr full ↦
        rw full (record {
          in_order = f.in_order;
          queue_bound = f.queue_bound;
          batch_bound = f.batch_bound;
        })
  ]

  receive-IsFlow :
      (ok : Bool) (w : SpendWriter F) (q : List (SpendEvent F))
      → q ≡ w.queue
      → IsFlow w
      → IsFlow (receive_from ok q w)
  unfolding receive_from flush
  receive-IsFlow ok w [] h f = f
  receive-IsFlow ok w (e ∷ q) h f =
      let batch = w.batch ++ e ∷ [] in
      let flow : w.submitted ++ (batch ++ q) ≡ w.accepted =
        ap (◌++◌ w.submitted) (append_assoc w.batch (e ∷ []) q ∙ ap (◌++◌ w.batch) h)
        ∙ f.in_order in
      let shorter : suc (length q) ≡ length w.queue = ap length h in
      let bound : length q ≤ w.capacity = omega (arith, shorter, f.queue_bound) in
      elim (Bool-cases (leb w.batch_size (length batch))) [
        | inl full ↦ rw full (
            flush-IsFlow ok (record w { queue = q; batch = batch }) batch refl flow bound
              (omega (arith, f.batch_bound)))
        | inr room ↦
            rw room (record { in_order = flow; queue_bound = bound; batch_bound = ground arith })
      ]

  drained_flow :
      (w : SpendWriter F) → IsFlow w → w.submitted ++ ((w.batch ++ w.queue) ++ []) ≡ w.accepted
  drained_flow w f = ap (◌++◌ w.submitted) (append-nil (w.batch ++ w.queue)) ∙ f.in_order

  leave-IsFlow : (ok : Bool) (w : SpendWriter F) → IsFlow w → IsFlow (flush ok (drain_remaining w))
  unfolding flush drain_remaining
  leave-IsFlow ok w f =
      flush-IsFlow ok (record w { queue = []; batch = w.batch ++ w.queue }) (w.batch ++ w.queue)
        refl (drained_flow w f) (omega arith) (omega (arith, f.batch_bound))

  either-IsFlow :
      (b : Bool) (w w' : SpendWriter F) → IsFlow w → IsFlow w' → IsFlow (if b then w else w')
  either-IsFlow true w w' f g = f
  either-IsFlow false w w' f g = g

  step-IsFlow : (s : Step F) (w : SpendWriter F) → IsFlow w → IsFlow (step s w)
  unfolding step flush
  step-IsFlow (enqueue e now) w f = enqueue-IsFlow e now w f
  step-IsFlow (receive ok) w f = either-IsFlow w.stopped w _ f (receive-IsFlow ok w w.queue refl f)
  step-IsFlow (tick ok) w f =
      either-IsFlow w.stopped w _ f
        (flush-IsFlow ok w w.batch refl f.in_order f.queue_bound (omega (arith, f.batch_bound)))
  step-IsFlow (leave ok) w f =
      let g = leave-IsFlow ok w f in
      either-IsFlow w.stopped w _ f
        (record { in_order = g.in_order; queue_bound = g.queue_bound; batch_bound = g.batch_bound })

  run_from-IsFlow : (steps : List (Step F)) (w : SpendWriter F) → IsFlow w → IsFlow (run steps w)
  unfolding run
  run_from-IsFlow [] w f = f
  run_from-IsFlow (s ∷ steps) w f = run_from-IsFlow steps (step s w) (step-IsFlow s w f)

  pub run-IsFlow :
      (capacity batch_size : ℕ) (steps : List (Step F))
      → 0 < batch_size
      → IsFlow (run steps (new_spend_writer capacity batch_size))
  unfolding new_spend_writer
  run-IsFlow capacity batch_size steps room =
      run_from-IsFlow steps _
        (record { in_order = refl; queue_bound = omega arith; batch_bound = room })

  flush_batch_empties :
      (ok : Bool) (w : SpendWriter F) (b : List (SpendEvent F))
      → b ≡ w.batch
      → let w' = flush_batch ok b w in
        (w'.batch ≡ []) × (w'.queue ≡ w.queue) × (w'.accepted ≡ w.accepted)
  unfolding flush_batch
  flush_batch_empties ok w [] e = (sym e, refl, refl)
  flush_batch_empties ok w (x ∷ b) e = (refl, refl, refl)

  -- Every accepted event was submitted, and none is left.
  abbrev pub IsClosed : SpendWriter F → SpendWriter F → Type 0
  IsClosed w w' =
      (w'.submitted ≡ w.accepted) × (w'.batch ≡ []) × (w'.queue ≡ []) × (w'.stopped ≡ true)

  final_flush-IsClosed :
      (ok : Bool) (w : SpendWriter F)
      → IsFlow w
      → IsClosed w (record (flush ok (drain_remaining w)) { stopped = true })
  unfolding flush drain_remaining
  final_flush-IsClosed ok w f =
      let w' =
        flush_batch ok (w.batch ++ w.queue) (record w { queue = []; batch = w.batch ++ w.queue }) in
      let g : IsFlow w' = leave-IsFlow ok w f in
      let (b, q, a) =
        flush_batch_empties ok (record w { queue = []; batch = w.batch ++ w.queue })
          (w.batch ++ w.queue) refl in
      let nothing : w'.batch ++ w'.queue ≡ [] = ap (λ x. x ++ w'.queue) b ∙ q in
      (
        sym (append-nil w'.submitted) ∙ ap (◌++◌ w'.submitted) (sym nothing) ∙ g.in_order ∙ a,
        b,
        q,
        refl,
      )

  unless_stopped :
      (b : Bool) (w w' : SpendWriter F)
      → b ≡ false
      → IsClosed w w'
      → IsClosed w (if b then w else w')
  unless_stopped true w w' e h = absurd (false≢true (sym e))
  unless_stopped false w w' e h = h

  -- If a batch has room for an event, then a goroutine that sees its context cancelled, after any
  -- steps, submits every event that was accepted until then and leaves none behind, also if the
  -- database refuses batches. An event is accepted only where the channel has room for it.
  pub leave_submits :
      (capacity batch_size : ℕ) (steps : List (Step F)) (ok : Bool)
      → 0 < batch_size
      → (run steps (new_spend_writer capacity batch_size)).stopped ≡ false
      → let w = run steps (new_spend_writer capacity batch_size) in IsClosed w (step (leave ok) w)
  unfolding step
  leave_submits capacity batch_size steps ok room running =
      let w = run steps (new_spend_writer capacity batch_size) in
      unless_stopped w.stopped w _ running
        (final_flush-IsClosed ok w (run-IsFlow capacity batch_size steps room))
