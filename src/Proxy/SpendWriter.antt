-- ===== src/Proxy/SpendWriter.antt =====
-- gateway/internal/proxy/spend_writer.go: the queue and the goroutine that empties it, as steps in
-- any order. The channel has room for at least one event.
pub mod Flow
pub mod Rows
use budget_governor.Prelude.{
  ℕ, suc, ◌+◌, ◌*◌, String, Bool, true, false, Option, none, some, List, [], ◌∷◌, ◌++◌, ltb, leb,
  length, str_eq, if◌then◌else◌,
}
use budget_governor.Prelude.Int.{ℤ}

-- `created_at` is `none` for the zero time.
pub record SpendEvent (F : Type 0) : Type 0 where
  pub tenant_id : String
  pub agent_id : String
  pub task_id : String
  pub model : String
  pub tokens_in : ℤ
  pub tokens_out : ℤ
  pub cost_usd : F
  pub trace_id : String
  pub decision : String
  pub decision_reason : String
  pub created_at : Option ℕ

-- What is passed to the database.
pub data Param (F : Type 0) : Type 0 where
  null : Param F
  text : String → Param F
  number : ℤ → Param F
  dollars : F → Param F
  time : Option ℕ → Param F

-- `queue` is the channel, oldest first. `submitted` lists the events given to the database, whether
-- or not it took them; `accepted` those that went into the channel, for the proofs alone.
pub record SpendWriter (F : Type 0) : Type 0 where
  pub capacity : ℕ
  pub batch_size : ℕ
  pub queue : List (SpendEvent F)
  pub batch : List (SpendEvent F)
  pub submitted : List (SpendEvent F)
  pub failed_batches : ℕ
  pub dropped : ℕ
  pub stopped : Bool
  pub accepted : List (SpendEvent F)

-- What may happen next. A flush carries whether the database takes the batch. `leave` is the goroutine
-- taking the branch of ctx.Done(): the context may have been cancelled long before, as during a flush,
-- and what was enqueued until then comes before this step and is still drained.
pub data Step (F : Type 0) : Type 0 where
  enqueue : SpendEvent F → ℕ → Step F
  receive tick leave : Bool → Step F

abbrev pub stamp : Option ℕ → ℕ → Option ℕ
stamp none now = some now
stamp (some t) now = some t

module _ {F : Type 0} where
  unfoldable pub new_spend_writer : ℕ → ℕ → SpendWriter F
  new_spend_writer capacity batch_size = record {
    capacity = capacity;
    batch_size = batch_size;
    queue = [];
    batch = [];
    submitted = [];
    failed_batches = 0;
    dropped = 0;
    stopped = false;
    accepted = [];
  }

  unfoldable pub enqueue_event : SpendEvent F → ℕ → SpendWriter F → SpendWriter F
  enqueue_event e now w =
      let e' = record e { created_at = stamp e.created_at now } in
      if ltb (length w.queue) w.capacity
      then record w { queue = w.queue ++ e' ∷ []; accepted = w.accepted ++ e' ∷ [] }
      else record w { dropped = suc w.dropped }

  -- Submitting a batch; an error is only logged.
  unfoldable pub flush_batch : Bool → List (SpendEvent F) → SpendWriter F → SpendWriter F
  flush_batch ok [] w = w
  flush_batch ok (e ∷ batch) w = record w {
    batch = [];
    submitted = w.submitted ++ (e ∷ batch);
    failed_batches = if ok then w.failed_batches else suc w.failed_batches;
  }

  unfoldable pub flush : Bool → SpendWriter F → SpendWriter F
  flush ok w = flush_batch ok w.batch w

  -- One event is taken out of the channel.
  unfoldable pub receive_from : Bool → List (SpendEvent F) → SpendWriter F → SpendWriter F
  receive_from ok [] w = w
  receive_from ok (e ∷ queue) w =
      let w' = record w { queue = queue; batch = w.batch ++ e ∷ [] } in
      if leb w.batch_size (length w'.batch) then flush ok w' else w'

  -- `drainRemaining`
  unfoldable pub drain_remaining : SpendWriter F → SpendWriter F
  drain_remaining w = record w { queue = []; batch = w.batch ++ w.queue }

  -- Once the goroutine has stopped, only the channel still changes.
  unfoldable pub step : Step F → SpendWriter F → SpendWriter F
  step (enqueue e now) w = enqueue_event e now w
  step (receive ok) w = if w.stopped then w else receive_from ok w.queue w
  step (tick ok) w = if w.stopped then w else flush ok w
  step (leave ok) w =
      if w.stopped then w else record (flush ok (drain_remaining w)) { stopped = true }

  unfoldable pub run : List (Step F) → SpendWriter F → SpendWriter F
  run [] w = w
  run (s ∷ steps) w = run steps (step s w)

  -- An empty text is NULL.
  abbrev optional : String → Param F
  optional s = if str_eq s "" then null else text s

  -- The row of one event.
  unfoldable pub row_of : SpendEvent F → List (Param F)
  row_of e =
      text e.tenant_id
      ∷ optional e.agent_id
      ∷ optional e.task_id
      ∷ text e.model
      ∷ number e.tokens_in
      ∷ number e.tokens_out
      ∷ dollars e.cost_usd
      ∷ text e.trace_id
      ∷ text e.decision
      ∷ text e.decision_reason
      ∷ time e.created_at
      ∷ []

  -- `args` of `writeBatch`
  unfoldable pub args_of : List (SpendEvent F) → List (Param F)
  args_of [] = []
  args_of (e ∷ batch) = row_of e ++ args_of batch

-- The number of column `j` of row `i` among the placeholders `$1`, `$2`, …
unfoldable pub placeholder : ℕ → ℕ → ℕ
placeholder i j = i * 11 + j + 1
