-- ===== src/Examples/Streams.antt =====
-- A stream of two chunks, for gateway/internal/proxy/stream.go, and a log that drops an entry, for
-- gateway/internal/observability/logging.go.
use budget_governor.Prelude.{refl, true, false, none, some, inl, List, [], ◌∷◌, String, ◌≡◌}
use budget_governor.Prelude.Int.{ℤ, pos}
use budget_governor.Observability.Logger.{
  RequestLog, Step, log, receive, cancel, new_async_logger, run, step, log_entry, receive_entry,
  drain, write_all, write,
}
use budget_governor.Observability.Logger.Lines.{IsLogging, calls_of, run-IsLogging}
use budget_governor.Provider.Types.{StreamChunk}
use budget_governor.Proxy.Sse.{Transport, SseChunkPayload, SseChunkWriter, new_writer}
use budget_governor.Proxy.Sse.Frames.{IsSent, frames, last_usage, write_chunks, write_chunks-IsSent}
use budget_governor.Examples.Dispatches.{final_chunk}

abbrev json : SseChunkPayload → String
json p = "{}"

abbrev open_transport : Transport
open_transport = record { flushes = true; marshal = λ p. inl (json p); broken = λ n. none }

abbrev hello : StreamChunk
hello = record {
  delta_content = "Hello";
  done = false;
  finish_reason = "";
  usage = record { tokens_in = pos 0; tokens_out = pos 0 };
}

abbrev chunks : List StreamChunk
chunks = hello ∷ final_chunk ∷ []

abbrev writer : SseChunkWriter
writer = new_writer "t1" "mock-small"

write_chunks-IsSent_example :
    IsSent
      (frames json writer.id writer.model chunks)
      (last_usage writer.final_usage chunks)
      writer
      (write_chunks open_transport chunks writer)
write_chunks-IsSent_example =
    write_chunks-IsSent open_transport json (λ n. refl) (λ p. refl) chunks writer

abbrev entry : RequestLog ℤ
entry = record {
  time = none;
  trace_id = "t1";
  tenant_id = "acme";
  agent_id = "writer";
  task_id = "42";
  model = "mock-small";
  provider = "mock";
  tokens_in = pos 12;
  tokens_out = pos 30;
  cost_usd = pos 19_800;
  decision = "allowed";
  decision_reason = "";
  latency_ms = 5;
  status_code = pos 200;
}

abbrev steps : List (Step ℤ)
steps = log entry 7 ∷ log entry 8 ∷ receive ∷ log entry 9 ∷ cancel ∷ []

one_dropped : (run (λ e. some "{}") steps (new_async_logger 1)).dropped ≡ 1
unfolding run step log_entry receive_entry drain write_all write new_async_logger
one_dropped = refl

run-IsLogging_example :
    IsLogging (λ e. some "{}") (calls_of steps) (run (λ e. some "{}") steps (new_async_logger 1))
run-IsLogging_example = run-IsLogging (λ e. some "{}") 1 steps
