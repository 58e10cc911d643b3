-- ===== src/Services/Advisor.antt =====
-- advisor/app: schemas.py, advisor.py and policy.py, the service that the gateway asks for suggestions.
-- The language model, the reading of JSON and the types that pydantic gives to it are parameters.
pub mod Schema
pub mod Guarded
pub mod Heeded
use Prim.Native.String
use budget_governor.Prelude.{
  ℕ, suc, String, Bool, true, false, ◌&&◌, ◌||◌, not, Option, none, some, List, [], ◌∷◌, leb, ltb,
  length, str_eq, if◌then◌else◌,
}
use budget_governor.Prelude.Int.{ℤ, pos, ltb_ℤ, eqb_ℤ, int64}
use budget_governor.Prelude.Float.{Float, nought}
use budget_governor.Services.Pricing.{cheaper_alternatives}
use budget_governor.Policy.Engine.{contains}
use budget_governor.Proxy.Advisor.{AdviseSuggestion}

-- What json.loads does: it gives a value, it raises JSONDecodeError or TypeError, or it raises another
-- exception, as RecursionError or the ValueError for an integer of too many digits.
pub data Loaded (J : Type 0) : Type 0 where
  parsed : J → Loaded J
  not_json raised : Loaded J

-- `SuggestionType`
pub data Kind : Type 0 where
  switch_model reduce_max_tokens summarize_first reduce_tool_calls : Kind

unfoldable pub kind_text : Kind → String
kind_text switch_model = "switch_model"
kind_text reduce_max_tokens = "reduce_max_tokens"
kind_text summarize_first = "summarize_first"
kind_text reduce_tool_calls = "reduce_tool_calls"

unfoldable pub kind_of : String → Option Kind
kind_of s =
    if str_eq s "switch_model"
    then some switch_model
    else (if str_eq s "reduce_max_tokens"
        then some reduce_max_tokens
        else (if str_eq s "summarize_first"
            then some summarize_first
            else (if str_eq s "reduce_tool_calls" then some reduce_tool_calls else none)))

abbrev pub same_kind : Kind → Kind → Bool
same_kind switch_model switch_model = true
same_kind reduce_max_tokens reduce_max_tokens = true
same_kind summarize_first summarize_first = true
same_kind reduce_tool_calls reduce_tool_calls = true
same_kind _ _ = false

-- A suggestion whose fields have the right types, before it is validated.
pub record RawSuggestion (F : Type 0) : Type 0 where
  pub type_text : String
  pub raw_model : Option String
  pub raw_max_tokens : Option ℤ
  pub raw_confidence : F
  pub raw_note : String

pub record Suggestion (F : Type 0) : Type 0 where
  pub kind : Kind
  pub suggested_model : Option String
  pub suggested_max_tokens : Option ℤ
  pub confidence : F
  pub risk_note : String

-- len(s)
unfoldable pub characters : String → ℕ
characters String.[] = 0
characters (String.◌∷◌ c s) = suc (characters s)

abbrev pub is_positive : Option ℤ → Bool
is_positive none = true
is_positive (some n) = ltb_ℤ (pos 0) n

-- not s.suggested_model, not s.suggested_max_tokens
abbrev pub is_named : Option String → Bool
is_named none = false
is_named (some m) = not (str_eq m "")

abbrev pub is_given : Option ℤ → Bool
is_given none = false
is_given (some n) = ltb_ℤ (pos 0) n || ltb_ℤ n (pos 0)

unfoldable pub seen_kind : Kind → List Kind → Bool
seen_kind k [] = false
seen_kind k (x ∷ seen) = same_kind x k || seen_kind k seen

-- The fields that a suggestion of its type needs.
abbrev pub means : Kind → Option String → Option ℤ → Bool
means switch_model model tokens = is_named model
means reduce_max_tokens model tokens = is_given tokens
means _ model tokens = true

-- The test on a switch_model suggestion in `apply_guardrails`.
module _ (F : Type 0) ⦃d : Float F⦄ (requested : String) where
  abbrev pub is_valid_target : Option String → Bool
  is_valid_target none = false
  is_valid_target (some m) = contains m (cheaper_alternatives F requested)

  abbrev pub is_cheaper_switch : Kind → Option String → Bool
  is_cheaper_switch switch_model target = is_valid_target target
  is_cheaper_switch _ target = true

module _ {F : Type 0} ⦃d : Float F⦄ where
  open d use {of_int, lt}

  -- The bounds of the fields of `Suggestion`.
  unfoldable pub in_bounds : RawSuggestion F → Bool
  in_bounds s =
      is_positive s.raw_max_tokens
      && (not (lt s.raw_confidence nought)
          && (not (lt (of_int (pos 1)) s.raw_confidence) && leb (characters s.raw_note) 500))

  abbrev pub with_kind : RawSuggestion F → Option Kind → Option (Suggestion F)
  with_kind s none = none
  with_kind s (some k) = some (record {
    kind = k;
    suggested_model = s.raw_model;
    suggested_max_tokens = s.raw_max_tokens;
    confidence = s.raw_confidence;
    risk_note = s.raw_note;
  })

  -- `none` is a ValidationError.
  unfoldable pub validate_one : RawSuggestion F → Option (Suggestion F)
  validate_one s = if in_bounds s then with_kind s (kind_of s.type_text) else none

  abbrev pub add_valid :
      Option (Suggestion F) → Option (List (Suggestion F)) → Option (List (Suggestion F))
  add_valid (some s) (some ss) = some (s ∷ ss)
  add_valid _ _ = none

  unfoldable pub validate_all : List (RawSuggestion F) → Option (List (Suggestion F))
  validate_all [] = some []
  validate_all (s ∷ ss) = add_valid (validate_one s) (validate_all ss)

  -- What `_validate_cross_fields` keeps.
  unfoldable pub is_meaningful : Suggestion F → Bool
  is_meaningful s = means s.kind s.suggested_model s.suggested_max_tokens

  unfoldable pub validate_cross_fields : List (Suggestion F) → List (Suggestion F)
  validate_cross_fields [] = []
  validate_cross_fields (s ∷ ss) =
      let rest = validate_cross_fields ss in if is_meaningful s then s ∷ rest else rest

  abbrev pub crossed : Option (List (Suggestion F)) → Option (List (Suggestion F))
  crossed none = none
  crossed (some ss) = some (validate_cross_fields ss)

  -- `LLMSuggestionsPayload.model_validate`
  unfoldable pub model_validate : List (RawSuggestion F) → Option (List (Suggestion F))
  model_validate ss = if leb (length ss) 3 then crossed (validate_all ss) else none

  -- The loop of `apply_guardrails`.
  unfoldable pub guard_from : String → List Kind → List (Suggestion F) → List (Suggestion F)
  guard_from requested seen [] = []
  guard_from requested seen (s ∷ ss) =
      let skip = guard_from requested seen ss in
      let keep = guard_from requested (s.kind ∷ seen) ss in
      if seen_kind s.kind seen
      then skip
      else (if is_cheaper_switch F requested s.kind s.suggested_model then s ∷ keep else skip)

  unfoldable pub apply_guardrails : String → List (Suggestion F) → List (Suggestion F)
  apply_guardrails requested ss = guard_from requested [] ss

  abbrev pub or_empty : Option (List (Suggestion F)) → List (Suggestion F)
  or_empty none = []
  or_empty (some ss) = ss

  abbrev pub typed_list : Option (List (RawSuggestion F)) → List (Suggestion F)
  typed_list none = []
  typed_list (some ss) = or_empty (model_validate ss)

  -- json.loads, and the types that pydantic finds in it.
  module _ {J : Type 0} (loads : String → Loaded J)
      (typed : J → Option (List (RawSuggestion F))) where
    -- `none` is an exception that nothing catches.
    abbrev pub loaded : Loaded J → Option (List (Suggestion F))
    loaded (parsed j) = some (typed_list (typed j))
    loaded not_json = some []
    loaded raised = none

    unfoldable pub parse_llm_output : String → Option (List (Suggestion F))
    parse_llm_output raw_text = loaded (loads raw_text)

    abbrev pub guarded : String → Option (List (Suggestion F)) → Option (List (Suggestion F))
    guarded requested none = none
    guarded requested (some ss) = some (apply_guardrails requested ss)

    -- `get_suggestions`, with what the client of the language model gives, where `none` is an
    -- exception; it is also one in the result.
    unfoldable pub get_suggestions : String → Option String → Option (List (Suggestion F))
    get_suggestions requested none = some []
    get_suggestions requested (some raw_text) = guarded requested (parse_llm_output raw_text)

abbrev pub text_or_empty : Option String → String
text_or_empty none = ""
text_or_empty (some s) = s

abbrev pub number_or_zero : Option ℤ → ℤ
number_or_zero none = pos 0
number_or_zero (some n) = n

-- Whether a number, which has no bound here, fits into an int of Go.
abbrev pub fits : Option ℤ → Bool
fits none = true
fits (some n) = eqb_ℤ (int64 n) n

-- What the gateway reads in the JSON of a suggestion; it takes null for the zero value.
abbrev pub read_as : {F : Type 0} → Suggestion F → AdviseSuggestion F
read_as s = record {
  kind = kind_text s.kind;
  suggested_model = text_or_empty s.suggested_model;
  suggested_max_tokens = number_or_zero s.suggested_max_tokens;
  confidence = s.confidence;
  risk_note = s.risk_note;
}

abbrev pub and_then :
    {F : Type 0}
    → AdviseSuggestion F
    → Option (List (AdviseSuggestion F))
    → Option (List (AdviseSuggestion F))
and_then s none = none
and_then s (some ss) = some (s ∷ ss)

-- What the gateway decodes; `none` where a number does not fit, which fails the whole.
unfoldable pub sent : {F : Type 0} → List (Suggestion F) → Option (List (AdviseSuggestion F))
sent [] = some []
sent (s ∷ ss) =
    let rest = sent ss in if fits s.suggested_max_tokens then and_then (read_as s) rest else none
