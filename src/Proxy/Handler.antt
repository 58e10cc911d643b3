-- ===== src/Proxy/Handler.antt =====
-- gateway/internal/proxy/handler.go: `ChatCompletions` and `handleBudgetPressure`.
pub mod Admission
pub mod Handled
use budget_governor.Prelude.{
  ℕ, String, Bool, false, Option, none, some, List, [], ◌∷◌, if◌then◌else◌,
}
use Prim.Native.String
use budget_governor.Prelude.Int.{ℤ, pos, ◌+ℤ◌, int64, leb_ℤ}
use budget_governor.Prelude.Float.{Float, nought}
use budget_governor.Auth.Keys.{Identity}
use budget_governor.Budget.Types.{RejectReason, no_reason, BucketRef, Decision}
use budget_governor.Budget.Script.{Redis}
use budget_governor.Budget.Enforcer.{Outcome, decided, check_and_decrement}
use budget_governor.Budget.ConfigCache.{ConfigMap, resolve}
use budget_governor.Observability.Metrics.{advisor_invocations}
use budget_governor.Policy.Engine.{Config, retry_with_model, partial_allowance, decide}
use budget_governor.Policy.Engine
use budget_governor.Provider.Pricing.{cost_usd}
use budget_governor.Provider.Tokenizer.{Unicode, estimate_messages_tokens}
use budget_governor.Provider.Types.{Request, Provider}
use budget_governor.Proxy.Advisor.{AdviseRequest, Post, advise}
use budget_governor.Proxy.Pressure.{
  reason_text, History, advise_request, advisor_outcome, advised, policy_context,
}
use budget_governor.Proxy.Router.{ProviderRouter}
use budget_governor.Proxy.Requests.{ClientChatRequest, to_provider_request}
use budget_governor.Proxy.Replies.{with_message}
use budget_governor.Proxy.Finish.{Course, World, finish, no_usage, record_metrics}
use budget_governor.Proxy.Sse.{Transport}
use budget_governor.Proxy.Dispatch.{
  error, Reply, with_advisory, Reservation, dispatch, dispatch_advised,
}

-- A malformed body comes with the text of its error.
pub data Bound (F : Type 0) : Type 0 where
  malformed : String → Bound F
  bound : ClientChatRequest F → Bound F

-- What comes with a request beside its body.
pub record Caller : Type 0 where
  pub identity : Identity
  pub agent_id : String
  pub task_id : String
  pub trace_id : String

abbrev pub default_output_token_estimate : ℤ
default_output_token_estimate = pos 512

-- `estimate_messages_tokens` always gives a number.
abbrev pub estimated : Option ℕ → ℤ
estimated none = pos 0
estimated (some n) = pos n

unfoldable pub output_estimate : {F : Type 0} → Request F → ℤ
output_estimate req =
    if leb_ℤ req.max_tokens (pos 0) then default_output_token_estimate else req.max_tokens

module _ {F : Type 0} where
  unfoldable pub is_allowed : Outcome F → Bool
  is_allowed (decided dec) = dec.allowed
  is_allowed _ = false

module _ {F : Type 0} ⦃d : Float F⦄ where
  -- What is asked for: the tokens of the prompt and those that may come out, and their price.
  unfoldable pub reservation_for : List (BucketRef F) → Request F → ℤ → ℤ → Reservation F
  reservation_for refs req tokens_in tokens_out = record {
    refs = refs;
    tokens = int64 (tokens_in +ℤ tokens_out);
    usd = cost_usd req.model tokens_in (pos 0) tokens_out;
  }

-- The request to the provider, with what the caller is.
unfoldable pub request_of : {F : Type 0} → Caller → ClientChatRequest F → Request F
request_of caller body = record (to_provider_request body) {
  tenant_id = caller.identity.tenant_id;
  agent_id = caller.agent_id;
  task_id = caller.task_id;
  trace_id = caller.trace_id;
}

-- The reason of the policy engine, or else that of the decision.
abbrev pub or_reason : RejectReason → RejectReason → RejectReason
or_reason no_reason second = second
or_reason first second = first

-- The outside of the handler: the Redis server, the providers, the connection to the client, Go's
-- character classes, the configuration of the policy engine, the advisor, and the database by
-- tenant and agent.
pub record Outside (F : Type 0) : Type 1 where
  pub redis : Redis F
  pub router : ProviderRouter (Provider F)
  pub transport : Transport
  pub unicode : Unicode
  pub policy_config : Config F
  pub advisor : AdviseRequest F → Post F
  pub history : String → String → History F

module _ {F : Type 0} ⦃d : Float F⦄ (o : Outside F) where
  open o use {redis, router, transport, unicode, policy_config, advisor, history}

  -- `reject`
  unfoldable pub reject :
      Course → Request F → Decision F → Engine.Outcome → World F → Reply F × World F
  reject c req dec outcome w =
      let reason = reason_text (or_reason outcome.reason dec.reason) in
      with_advisory "" (
        error (pos 429) (record (with_message (String.◌++◌ "budget exceeded: " reason) reason) {
          remaining_tokens = dec.remaining_tokens;
          remaining_usd = dec.remaining_usd;
          advice = outcome.advice;
        }),
        finish router c req [] dec.remaining_tokens "rejected" reason no_usage nought (pos 429) w,
      )

  -- The second check, for the changed request `req'`.
  unfoldable pub try_again :
      Course
      → Request F
      → Request F
      → Reservation F
      → Decision F
      → Engine.Outcome
      → World F
      → Reply F × World F
  try_again c req req' v dec outcome w =
      let (out, y) = check_and_decrement redis c.retry v.refs v.tokens v.usd w.system in
      let w' = record w { system = y } in
      if is_allowed out
      then dispatch_advised redis router transport c req' v outcome.advice w'
      else reject c req dec outcome w'

  -- The `switch` on the action of the policy engine.
  unfoldable pub act_on_outcome :
      Course
      → Request F
      → List (BucketRef F)
      → Decision F
      → ℤ
      → Engine.Outcome
      → Engine.Action
      → World F
      → Reply F × World F
  act_on_outcome c req refs dec tokens_in outcome retry_with_model w =
      let req' = record req { model = outcome.model } in
      try_again c req req' (reservation_for refs req' tokens_in (output_estimate req')) dec outcome
        w
  act_on_outcome c req refs dec tokens_in outcome partial_allowance w =
      let req' = record req { max_tokens = outcome.max_tokens } in
      try_again c req req' (reservation_for refs req' tokens_in outcome.max_tokens) dec outcome w
  act_on_outcome c req refs dec tokens_in outcome _ w = reject c req dec outcome w

  unfoldable pub handle_budget_pressure :
      Course → Request F → List (BucketRef F) → Decision F → ℤ → ℤ → World F → Reply F × World F
  handle_budget_pressure c req refs dec tokens_in est_tokens w =
      let said =
        advise (advisor (advise_request req dec est_tokens (history req.tenant_id req.agent_id))) in
      let outcome = decide (policy_context req dec est_tokens) (advised said) policy_config in
      act_on_outcome c req refs dec tokens_in outcome outcome.action
        (record_metrics (advisor_invocations req.tenant_id (advisor_outcome said) ∷ []) w)

  -- What follows the first check.
  unfoldable pub after_check :
      Course → Request F → Reservation F → ℤ → Outcome F → World F → Reply F × World F
  after_check c req v tokens_in (decided dec) w =
      if dec.allowed
      then dispatch redis router transport c req v "allowed" "" w
      else handle_budget_pressure c req v.refs dec tokens_in v.tokens w
  after_check c req v tokens_in _ w =
      with_advisory "" (
        error (pos 503) (with_message "budget backend unavailable" "budget_backend_unavailable"),
        w,
      )

  -- A request whose budgets are these.
  unfoldable pub admit : Course → Request F → List (BucketRef F) → World F → Reply F × World F
  admit c req [] w = with_advisory "" (
    error (pos 403)
        (with_message "no budget configured for this tenant/agent/task" "no_budget_configured"),
    finish router c req [] nought "rejected" "no_budget_configured" no_usage nought (pos 403) w,
  )
  admit c req (b ∷ bs) w =
      let tokens_in = estimated (estimate_messages_tokens unicode req.system req.messages) in
      let v = reservation_for (b ∷ bs) req tokens_in (output_estimate req) in
      let (out, y) = check_and_decrement redis c.check v.refs v.tokens v.usd w.system in
      after_check c req v tokens_in out (record w { system = y })

  unfoldable pub chat_completions :
      Course → Caller → ConfigMap F → Bound F → World F → Reply F × World F
  chat_completions c caller entries (malformed e) w =
      with_advisory "" (
        error (pos 400) (with_message (String.◌++◌ "invalid request body: " e) "invalid_request"),
        w,
      )
  chat_completions c caller entries (bound body) w =
      admit c (request_of caller body)
        (resolve caller.identity.tenant_id caller.agent_id caller.task_id entries) w
