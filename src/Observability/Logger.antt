-- ===== src/Observability/Logger.antt =====
-- gateway/internal/observability/logging.go: the channel and the goroutine that empties it, as steps
-- in any order. The channel has room for at least one entry.
pub mod Lines
use budget_governor.Prelude.{
  ℕ, ◌+◌, ◌%◌, ◌^◌, String, Bool, false, true, Option, none, some, List, [], ◌∷◌, ◌++◌, ltb, length,
  if◌then◌else◌,
}
use budget_governor.Prelude.Int.{ℤ}

-- `time` is `none` for the zero time.
pub record RequestLog (F : Type 0) : Type 0 where
  pub time : Option ℕ
  pub trace_id : String
  pub tenant_id : String
  pub agent_id : String
  pub task_id : String
  pub model : String
  pub provider : String
  pub tokens_in : ℤ
  pub tokens_out : ℤ
  pub cost_usd : F
  pub decision : String
  pub decision_reason : String
  pub latency_ms : ℕ
  pub status_code : ℤ

-- `queue` is the channel, oldest first, and `out` the lines that were written. `accepted` lists the
-- entries that went into the channel, for the proofs alone.
pub record AsyncLogger (F : Type 0) : Type 0 where
  pub capacity : ℕ
  pub queue : List (RequestLog F)
  pub out : List String
  pub dropped : ℕ
  pub stopped : Bool
  pub accepted : List (RequestLog F)

pub data Step (F : Type 0) : Type 0 where
  log : RequestLog F → ℕ → Step F
  receive cancel drain_now : Step F

abbrev pub stamp_time : Option ℕ → ℕ → Option ℕ
stamp_time none now = some now
stamp_time (some t) now = some t

module _ {F : Type 0} where
  unfoldable pub new_async_logger : ℕ → AsyncLogger F
  new_async_logger buffer_size = record {
    capacity = buffer_size;
    queue = [];
    out = [];
    dropped = 0;
    stopped = false;
    accepted = [];
  }

  -- `Log`
  unfoldable pub log_entry : RequestLog F → ℕ → AsyncLogger F → AsyncLogger F
  log_entry entry now al =
      let entry' = record entry { time = stamp_time entry.time now } in
      if ltb (length al.queue) al.capacity
      then record al { queue = al.queue ++ entry' ∷ []; accepted = al.accepted ++ entry' ∷ [] }
      else record al { dropped = (al.dropped + 1) % 2 ^ 64 }

  -- The JSON text of an entry, or an error.
  module _ (marshal : RequestLog F → Option String) where
    abbrev pub line_of : Option String → List String
    line_of none = []
    line_of (some line) = line ∷ []

    unfoldable pub write : RequestLog F → List String → List String
    write entry out = out ++ line_of (marshal entry)

    unfoldable pub write_all : List (RequestLog F) → List String → List String
    write_all [] out = out
    write_all (entry ∷ queue) out = write_all queue (write entry out)

    -- One entry is taken out of the channel.
    unfoldable pub receive_entry : List (RequestLog F) → AsyncLogger F → AsyncLogger F
    receive_entry [] al = al
    receive_entry (entry ∷ queue) al = record al { queue = queue; out = write entry al.out }

    unfoldable pub drain : AsyncLogger F → AsyncLogger F
    drain al = record al { queue = []; out = write_all al.queue al.out }

    -- Once `Run` has returned, only `Log` and `Drain` still do something.
    unfoldable pub step : Step F → AsyncLogger F → AsyncLogger F
    step (log entry now) al = log_entry entry now al
    step receive al = if al.stopped then al else receive_entry al.queue al
    step cancel al = if al.stopped then al else record (drain al) { stopped = true }
    step drain_now al = drain al

    unfoldable pub run : List (Step F) → AsyncLogger F → AsyncLogger F
    run [] al = al
    run (s ∷ steps) al = run steps (step s al)
