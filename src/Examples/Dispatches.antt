-- ===== src/Examples/Dispatches.antt =====
-- Requests that a provider answers, for gateway/internal/proxy/handler.go and stream.go.
use budget_governor.Prelude.{refl, ◌≡◌, Bool, true, false, some, [], String, ◌⊎◌, inl}
use budget_governor.Prelude.Int.{ℤ, pos}
use budget_governor.Prelude.Float.{fixed}
use budget_governor.Budget.Enforcer.{answered, Weather}
use budget_governor.Observability.Logger.{new_async_logger}
use budget_governor.Provider.Types.{
  Response, completed, failed, provider_error, other_error, Provider, Request, StreamChunk, Failure,
}
use budget_governor.Proxy.Router.{ProviderRouter}
use budget_governor.Proxy.SpendWriter.{new_spend_writer}
use budget_governor.Proxy.Finish.{Course, World}
use budget_governor.Proxy.Sse.{Transport, SseChunkPayload}
use budget_governor.Proxy.Dispatch.{Reservation, do_complete, stream_dispatch, map_provider_status}
use budget_governor.Proxy.Dispatch.Settled.{
  IsDispatched, do_complete-IsDispatched, stream_dispatch-IsDispatched,
}
use budget_governor.Examples.Budgets.{redis, refs, system, usd}

overloaded_test : map_provider_status (pos 529) ≡ pos 502
unfolding map_provider_status
overloaded_test = refl

abbrev pub response : Response ℤ
response = record {
  id = "r1";
  model = "mock-small";
  content = "Hello";
  finish_reason = "stop";
  usage = record { tokens_in = pos 12; tokens_out = pos 30 };
  cost_usd = pos 19_800;
}

abbrev pub final_chunk : StreamChunk
final_chunk = record {
  delta_content = "";
  done = true;
  finish_reason = "stop";
  usage = record { tokens_in = pos 12; tokens_out = pos 30 };
}

abbrev pub working : Provider ℤ
working = record {
  name = "mock";
  complete = λ req. completed response;
  stream = λ write req w. write final_chunk w;
}

abbrev slow_down : Failure
slow_down = provider_error (record {
  status_code = pos 429;
  kind = "rate_limited";
  message = "slow down";
  retry_after = pos 0;
})

abbrev pub busy : Provider ℤ
busy = record {
  name = "openai";
  complete = λ req. failed slow_down;
  stream = λ write req w. (some slow_down, w);
}

abbrev pub router : ProviderRouter (Provider ℤ)
router = record { openai = busy; anthropic = busy; mock = working }

abbrev pub request : Bool → Request ℤ
request stream = record {
  model = "mock-small";
  messages = [];
  system = "Be brief.";
  max_tokens = pos 0;
  temperature = pos 0;
  stream = stream;
  tenant_id = "acme";
  agent_id = "writer";
  task_id = "42";
  trace_id = "t1";
}

abbrev fine : Weather
fine = record { evalsha = answered; eval = answered; load = answered; sec = 100; usec = 0 }

abbrev pub course : Course
course = record {
  start = 1_000;
  finish = 5_001_000;
  log = 5_002_000;
  enqueue = 5_003_000;
  check = fine;
  retry = fine;
  settle = answered;
  gone = false;
}

abbrev pub world : World ℤ
world = record {
  system = system;
  logger = new_async_logger 4;
  metrics = [];
  spend_writer = some (new_spend_writer 4 2);
}

abbrev pub reservation : Reservation ℤ
reservation = record { refs = refs; tokens = pos 300; usd = usd }

abbrev marshal : SseChunkPayload → String ⊎ Failure
marshal p = inl "{}"

-- The connection breaks at once.
abbrev pub transport : Transport
transport = record {
  flushes = true;
  marshal = marshal;
  broken = λ n. some (other_error "broken pipe");
}

do_complete-IsDispatched_example :
    IsDispatched redis router course
      (request false)
      reservation
      "other"
      "allowed"
      ""
      world
      (do_complete redis router course (request false) reservation "allowed" "" "" world)
do_complete-IsDispatched_example =
    do_complete-IsDispatched redis router course (request false) reservation "other" "allowed" ""
      world refl (((refl, refl), tt), (tt, tt)) ((refl, refl), ((refl, refl), tt)) ""

stream_dispatch-IsDispatched_example :
    IsDispatched redis router course
      (request true)
      reservation
      "other"
      "allowed"
      ""
      world
      (stream_dispatch redis router transport course (request true) reservation "allowed" "" world)
stream_dispatch-IsDispatched_example =
    stream_dispatch-IsDispatched redis router course (request true) reservation "other" "allowed" ""
      world refl (((refl, refl), tt), (tt, tt)) ((refl, refl), ((refl, refl), tt)) transport "" refl
