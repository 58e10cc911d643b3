-- ===== src/Proxy/Finish.antt =====
-- `finish` of gateway/internal/proxy/handler.go, with the state of the handler that it changes.
pub mod Once
use budget_governor.Prelude.{
  ℕ, ◌-◌, ◌/◌, String, Bool, Option, none, some, List, [], ◌∷◌, ◌++◌, str_eq, if◌then◌else◌,
}
use budget_governor.Prelude.Int.{ℤ, pos, ltb_ℤ}
use budget_governor.Prelude.Float.{Float, nought}
use budget_governor.Budget.Types.{Scope, task, agent, tenant, BucketRef}
use budget_governor.Budget.Enforcer.{Delivery, Weather, System}
use budget_governor.Observability.Metrics.{
  Metric, requests_total, request_duration, tokens_total, cost_usd_total, rejections_total,
  bucket_saturation,
}
use budget_governor.Observability.Logger.{RequestLog, AsyncLogger, log_entry}
use budget_governor.Provider.Types.{Request, Usage, Provider}
use budget_governor.Proxy.Router.{ProviderRouter, select}
use budget_governor.Proxy.SpendWriter.{SpendEvent, SpendWriter, enqueue_event}

-- What the parts of the handler keep: the budgets, the log, the calls on the metrics, oldest first,
-- and the spend writer, if there is one.
pub record World (F : Type 0) : Type 0 where
  pub system : System F
  pub logger : AsyncLogger F
  pub metrics : List (Metric F)
  pub spend_writer : Option (SpendWriter F)

-- What a request meets: the readings of the clock, in nanoseconds, which do not go back, and the
-- fate of its commands to the budgets. `gone` is whether the client has broken off by the time of the
-- settlement, which cancels the context of the request.
pub record Course : Type 0 where
  pub start : ℕ
  pub finish : ℕ
  pub log : ℕ
  pub enqueue : ℕ
  pub check : Weather
  pub retry : Weather
  pub settle : Delivery
  pub gone : Bool

unfoldable pub scope_text : Scope → String
scope_text task = "task"
scope_text agent = "agent"
scope_text tenant = "tenant"

-- `providerNameFor`
unfoldable pub provider_name_for : {F : Type 0} → ProviderRouter (Provider F) → String → String
provider_name_for router model = (select router model).name

abbrev pub no_usage : Usage
no_usage = record { tokens_in = pos 0; tokens_out = pos 0 }

module _ {F : Type 0} where
  -- A call on a metric.
  unfoldable pub record_metrics : List (Metric F) → World F → World F
  record_metrics ms w = record w { metrics = w.metrics ++ ms }

  unfoldable pub enqueue_on : Option (SpendWriter F) → SpendEvent F → ℕ → Option (SpendWriter F)
  enqueue_on none e now = none
  enqueue_on (some w) e now = some (enqueue_event e now w)

  -- The event for the spend writer.
  unfoldable pub event_of : Request F → String → String → Usage → F → SpendEvent F
  event_of req label reason usage cost = record {
    tenant_id = req.tenant_id;
    agent_id = req.agent_id;
    task_id = req.task_id;
    model = req.model;
    tokens_in = usage.tokens_in;
    tokens_out = usage.tokens_out;
    cost_usd = cost;
    trace_id = req.trace_id;
    decision = label;
    decision_reason = reason;
    created_at = none;
  }

module _ {F : Type 0} ⦃d : Float F⦄ where
  open d use {of_int, sub, div, lt}

  -- The loop over the refs.
  unfoldable pub saturations : String → F → List (BucketRef F) → List (Metric F)
  saturations tenant_id remaining [] = []
  saturations tenant_id remaining (b ∷ refs) =
      let rest = saturations tenant_id remaining refs in
      let saturation = sub (of_int (pos 1)) (div remaining (of_int b.limits.token_limit)) in
      if ltb_ℤ (pos 0) b.limits.token_limit
      then bucket_saturation tenant_id (scope_text b.scope) saturation ∷ rest
      else rest

  abbrev count_tokens : Request F → String → ℤ → List (Metric F)
  count_tokens req direction n =
      if ltb_ℤ (pos 0) n then tokens_total req.tenant_id req.model direction (of_int n) ∷ [] else []

  -- `remaining` is the one field of the decision that is read.
  unfoldable pub finish_metrics :
      Request F → List (BucketRef F) → F → String → String → ℕ → Usage → F → List (Metric F)
  finish_metrics req refs remaining label reason latency usage cost =
      requests_total req.tenant_id req.model label
      ∷ request_duration req.tenant_id req.model label latency
      ∷ (count_tokens req "in" usage.tokens_in
          ++ (count_tokens req "out" usage.tokens_out
              ++ ((if lt nought cost
                    then cost_usd_total req.tenant_id req.agent_id req.model cost ∷ []
                    else [])
                  ++ ((if str_eq label "rejected"
                        then rejections_total req.tenant_id reason ∷ []
                        else [])
                      ++ saturations req.tenant_id remaining refs))))

  module _ (router : ProviderRouter (Provider F)) where
    -- The line for the log.
    unfoldable pub log_of : Request F → String → String → ℕ → Usage → F → ℤ → RequestLog F
    log_of req label reason latency usage cost status = record {
      time = none;
      trace_id = req.trace_id;
      tenant_id = req.tenant_id;
      agent_id = req.agent_id;
      task_id = req.task_id;
      model = req.model;
      provider = provider_name_for router req.model;
      tokens_in = usage.tokens_in;
      tokens_out = usage.tokens_out;
      cost_usd = cost;
      decision = label;
      decision_reason = reason;
      latency_ms = latency / 1_000_000;
      status_code = status;
    }

    unfoldable pub finish :
        Course
        → Request F
        → List (BucketRef F)
        → F
        → String
        → String
        → Usage
        → F
        → ℤ
        → World F
        → World F
    finish c req refs remaining label reason usage cost status w =
        let latency = c.finish - c.start in
        record (record_metrics (finish_metrics req refs remaining label reason latency usage cost)
          w) {
            logger = log_entry (log_of req label reason latency usage cost status) c.log w.logger;
            spend_writer =
                enqueue_on w.spend_writer (event_of req label reason usage cost) c.enqueue;
          }
