-- ===== src/Proxy/Advisor.antt =====
-- gateway/internal/proxy/advisor_client.go. The POST itself is a parameter of the handler.
use budget_governor.Prelude.{String, Option, none, some, List, [], ◌∷◌, str_eq, if◌then◌else◌}
use budget_governor.Prelude.Int.{ℤ, pos, eqb_ℤ}
use budget_governor.Policy.Engine.{
  SuggestionType, switch_model, reduce_max_tokens, summarize_first, reduce_tool_calls, unrecognized,
  Suggestion,
}

pub record CallRecord (F : Type 0) : Type 0 where
  pub model : String
  pub tokens_in : ℤ
  pub tokens_out : ℤ
  pub cost_usd : F

pub record AdviseRequest (F : Type 0) : Type 0 where
  pub tenant_id : String
  pub agent_id : String
  pub task_id : String
  pub requested_model : String
  pub estimated_tokens : ℤ
  pub remaining_tokens : F
  pub remaining_usd : F
  pub failed_scope : String
  pub recent_calls : List (CallRecord F)

pub record AdviseSuggestion (F : Type 0) : Type 0 where
  pub kind : String
  pub suggested_model : String
  pub suggested_max_tokens : ℤ
  pub confidence : F
  pub risk_note : String

-- What the POST of a request gives: no answer, or a status and the suggestions, if the body can be
-- decoded.
pub data Post (F : Type 0) : Type 0 where
  no_answer : Post F
  answer : ℤ → Option (List (AdviseSuggestion F)) → Post F

-- policy.SuggestionType(s.Type)
unfoldable pub suggestion_type : String → SuggestionType
suggestion_type s =
    if str_eq s "switch_model"
    then switch_model
    else (if str_eq s "reduce_max_tokens"
        then reduce_max_tokens
        else (if str_eq s "summarize_first"
            then summarize_first
            else (if str_eq s "reduce_tool_calls" then reduce_tool_calls else unrecognized s)))

module _ {F : Type 0} where
  -- The loop of `Advise`.
  unfoldable pub suggestions_of : List (AdviseSuggestion F) → List (Suggestion F)
  suggestions_of [] = []
  suggestions_of (s ∷ ss) =
      record {
        kind = suggestion_type s.kind;
        suggested_model = s.suggested_model;
        suggested_max_tokens = s.suggested_max_tokens;
        confidence = s.confidence;
        risk_note = s.risk_note;
      }
      ∷ suggestions_of ss

  abbrev decoded : Option (List (AdviseSuggestion F)) → Option (List (Suggestion F))
  decoded none = none
  decoded (some ss) = some (suggestions_of ss)

  -- `Advise`; `none` is an error.
  unfoldable pub advise : Post F → Option (List (Suggestion F))
  advise no_answer = none
  advise (answer status body) = if eqb_ℤ status (pos 200) then decoded body else none
