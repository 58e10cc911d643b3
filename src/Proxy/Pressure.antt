-- ===== src/Proxy/Pressure.antt =====
-- gateway/internal/proxy/handler.go: what `handleBudgetPressure` asks of the advisor and of the
-- policy engine.
use budget_governor.Prelude.{String, Option, none, some, List, [], ◌∷◌, str_eq, if◌then◌else◌}
use budget_governor.Prelude.Int.{ℤ}
use budget_governor.Budget.Types.{
  Scope, RejectReason, no_reason, over_task_budget, over_agent_budget, over_tenant_budget,
  invalid_request, Decision,
}
use budget_governor.Policy.Engine.{Suggestion, Context}
use budget_governor.Provider.Types.{Request}
use budget_governor.Proxy.Advisor.{CallRecord, AdviseRequest}
use budget_governor.Proxy.Finish.{scope_text}

unfoldable pub reason_text : RejectReason → String
reason_text no_reason = ""
reason_text over_task_budget = "over_task_budget"
reason_text over_agent_budget = "over_agent_budget"
reason_text over_tenant_budget = "over_tenant_budget"
reason_text invalid_request = "invalid_request"

abbrev pub failed_scope_text : Option Scope → String
failed_scope_text none = ""
failed_scope_text (some s) = scope_text s

-- What the database says of recent calls: there is none, the query fails, or rows, of which `none`
-- cannot be scanned.
pub data History (F : Type 0) : Type 0 where
  no_database query_failed : History F
  rows : List (Option (CallRecord F)) → History F

module _ {F : Type 0} where
  unfoldable pub scanned : List (Option (CallRecord F)) → List (CallRecord F)
  scanned [] = []
  scanned (none ∷ calls) = scanned calls
  scanned (some c ∷ calls) = c ∷ scanned calls

  abbrev history_calls : History F → List (CallRecord F)
  history_calls (rows calls) = scanned calls
  history_calls _ = []

  unfoldable pub recent_calls : History F → String → List (CallRecord F)
  recent_calls history agent_id = if str_eq agent_id "" then [] else history_calls history

  unfoldable pub advise_request : Request F → Decision F → ℤ → History F → AdviseRequest F
  advise_request req dec est_tokens history = record {
    tenant_id = req.tenant_id;
    agent_id = req.agent_id;
    task_id = req.task_id;
    requested_model = req.model;
    estimated_tokens = est_tokens;
    remaining_tokens = dec.remaining_tokens;
    remaining_usd = dec.remaining_usd;
    failed_scope = failed_scope_text dec.failed_scope;
    recent_calls = recent_calls history req.agent_id;
  }

  -- The variable `outcome`, and the suggestions after an error.
  unfoldable pub advisor_outcome : Option (List (Suggestion F)) → String
  advisor_outcome none = "error"
  advisor_outcome (some []) = "no_suggestions"
  advisor_outcome (some (s ∷ ss)) = "suggested"

  unfoldable pub advised : Option (List (Suggestion F)) → List (Suggestion F)
  advised none = []
  advised (some ss) = ss

  unfoldable pub policy_context : Request F → Decision F → ℤ → Context F
  policy_context req dec est_tokens = record {
    requested_model = req.model;
    requested_tokens = est_tokens;
    remaining_tokens = dec.remaining_tokens;
    fail_reason = dec.reason;
  }
