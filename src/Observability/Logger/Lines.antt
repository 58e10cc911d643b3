-- ===== src/Observability/Logger/Lines.antt =====
-- Which entries are written, and in what order.
use budget_governor.Prelude.{
  ℕ, suc, ◌+◌, ◌%◌, ◌^◌, ◌≤◌, String, Bool, true, false, Option, List, [], ◌∷◌, ◌++◌, ◌≡◌, refl,
  sym, ◌∙◌, ap, inl, inr, arith, length, length-append, ltb, ltb→lt, Bool-cases, if◌then◌else◌,
}
use budget_governor.Observability.Logger.{
  RequestLog, AsyncLogger, Step, log, receive, cancel, drain_now, stamp_time, new_async_logger,
  log_entry, write, write_all, receive_entry, drain, step, run,
}

module _ {F : Type 0} where
  -- The calls of `Log` among the steps.
  unfoldable pub calls_of : List (Step F) → ℕ
  calls_of [] = 0
  calls_of (log entry now ∷ steps) = suc (calls_of steps)
  calls_of (_ ∷ steps) = calls_of steps

  module _ (marshal : RequestLog F → Option String) where
    write_all-append :
        (xs ys : List (RequestLog F)) (out : List String)
        → write_all marshal (xs ++ ys) out ≡ write_all marshal ys (write_all marshal xs out)
    unfolding write_all
    write_all-append [] ys out = refl
    write_all-append (x ∷ xs) ys out = write_all-append xs ys (write marshal x out)

    -- The channel is within its capacity; writing what is in it would complete the lines of all
    -- accepted entries, in their order; and each of `calls` was accepted or counted as dropped.
    pub record IsLogging (calls : ℕ) (al : AsyncLogger F) : Type 0 where
      pub in_order : write_all marshal al.queue al.out ≡ write_all marshal al.accepted []
      pub queue_bound : length al.queue ≤ al.capacity
      pub counted : (length al.accepted + al.dropped) % 2 ^ 64 ≡ calls % 2 ^ 64

    log-IsLogging :
        (entry : RequestLog F) (now calls : ℕ) (al : AsyncLogger F)
        → IsLogging calls al
        → IsLogging (suc calls) (log_entry entry now al)
    unfolding log_entry write_all
    log-IsLogging entry now calls al f =
        let entry' = record entry { time = stamp_time entry.time now } in
        elim (Bool-cases (ltb (length al.queue) al.capacity)) [
          | inl room ↦ rw room (record {
            in_order =
                write_all-append al.queue (entry' ∷ []) al.out
                ∙ ap (write marshal entry') f.in_order
                ∙ sym (write_all-append al.accepted (entry' ∷ []) []);
            queue_bound = omega (
              arith,
              length-append al.queue (entry' ∷ []),
              ltb→lt (length al.queue) al.capacity room,
            );
            counted = omega (arith, length-append al.accepted (entry' ∷ []), f.counted);
          })
          | inr full ↦ rw full (record {
            in_order = f.in_order;
            queue_bound = f.queue_bound;
            counted = omega (arith, f.counted);
          })
        ]

    receive-IsLogging :
        (calls : ℕ) (al : AsyncLogger F) (queue : List (RequestLog F))
        → queue ≡ al.queue
        → IsLogging calls al
        → IsLogging calls (receive_entry marshal queue al)
    unfolding receive_entry write_all
    receive-IsLogging calls al [] e f = f
    receive-IsLogging calls al (entry ∷ queue) e f =
        let shorter : suc (length queue) ≡ length al.queue = ap length e in
        record {
          in_order = ap (λ q. write_all marshal q al.out) e ∙ f.in_order;
          queue_bound = omega (arith, shorter, f.queue_bound);
          counted = f.counted;
        }

    drain-IsLogging :
        (calls : ℕ) (stopped : Bool) (al : AsyncLogger F)
        → IsLogging calls al
        → IsLogging calls (record (drain marshal al) { stopped = stopped })
    unfolding drain write_all
    drain-IsLogging calls stopped al f = record {
      in_order = f.in_order;
      queue_bound = omega arith;
      counted = f.counted;
    }

    either-IsLogging :
        (b : Bool) (calls : ℕ) (al al' : AsyncLogger F)
        → IsLogging calls al
        → IsLogging calls al'
        → IsLogging calls (if b then al else al')
    either-IsLogging true calls al al' f g = f
    either-IsLogging false calls al al' f g = g

    run_from-IsLogging :
        (calls : ℕ) (steps : List (Step F)) (al : AsyncLogger F)
        → IsLogging calls al
        → IsLogging (calls + calls_of steps) (run marshal steps al)
    unfolding run step calls_of drain
    run_from-IsLogging calls [] al f = let e : calls + 0 ≡ calls = omega arith in rw e f
    run_from-IsLogging calls (log entry now ∷ steps) al f =
        let e : calls + suc (calls_of steps) ≡ suc calls + calls_of steps = omega arith in
        rw e (run_from-IsLogging (suc calls) steps _ (log-IsLogging entry now calls al f))
    run_from-IsLogging calls (receive ∷ steps) al f =
        run_from-IsLogging calls steps _
          (either-IsLogging al.stopped calls al _ f (receive-IsLogging calls al al.queue refl f))
    run_from-IsLogging calls (cancel ∷ steps) al f =
        run_from-IsLogging calls steps _
          (either-IsLogging al.stopped calls al _ f (drain-IsLogging calls true al f))
    run_from-IsLogging calls (drain_now ∷ steps) al f =
        run_from-IsLogging calls steps _ (drain-IsLogging calls al.stopped al f)

    -- Whatever calls of `Log`, receptions of the goroutine, cancellations and calls of `Drain` follow
    -- the start in whatever order: the channel never holds more than its capacity; to write what it
    -- holds would give exactly the lines of the accepted entries, in the order of their calls; and
    -- the accepted entries and the dropped ones, counted in 64 bits, are together the calls of `Log`.
    pub run-IsLogging :
        (buffer_size : ℕ) (steps : List (Step F))
        → IsLogging (calls_of steps) (run marshal steps (new_async_logger buffer_size))
    unfolding new_async_logger write_all
    run-IsLogging buffer_size steps =
        let e : 0 + calls_of steps ≡ calls_of steps = omega arith in
        rw e at (
          run_from-IsLogging 0 steps (new_async_logger buffer_size)
            (record { in_order = refl; queue_bound = omega arith; counted = refl }))
