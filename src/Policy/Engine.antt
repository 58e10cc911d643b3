-- ===== src/Policy/Engine.antt =====
-- gateway/internal/policy/policy.go.
pub mod Rank
use Prim.Native.String
use budget_governor.Prelude.{
  String, Bool, true, false, ◌&&◌, ◌||◌, Option, none, some, List, [], ◌∷◌, str_eq, if◌then◌else◌,
}
use budget_governor.Prelude.Int.{ℤ, pos, ltb_ℤ, leb_ℤ}
use budget_governor.Prelude.Float.{Float}
use budget_governor.Budget.Types.{RejectReason, no_reason}
use budget_governor.Provider.Pricing.{cheaper_alternatives}

-- Any text but the four that the engine knows is `unrecognized`.
pub data SuggestionType : Type 0 where
  switch_model reduce_max_tokens summarize_first reduce_tool_calls : SuggestionType
  unrecognized : String → SuggestionType

unfoldable pub type_text : SuggestionType → String
type_text switch_model = "switch_model"
type_text reduce_max_tokens = "reduce_max_tokens"
type_text summarize_first = "summarize_first"
type_text reduce_tool_calls = "reduce_tool_calls"
type_text (unrecognized s) = s

pub record Suggestion (F : Type 0) : Type 0 where
  pub kind : SuggestionType
  pub suggested_model : String
  pub suggested_max_tokens : ℤ
  pub confidence : F
  pub risk_note : String

-- The fields of `Context` that `Decide` reads.
pub record Context (F : Type 0) : Type 0 where
  pub requested_model : String
  pub requested_tokens : ℤ
  pub remaining_tokens : F
  pub fail_reason : RejectReason

pub record Config (F : Type 0) : Type 0 where
  pub min_confidence : F
  pub min_partial_allowance_tokens : ℤ

pub data Action : Type 0 where
  reject retry_with_model partial_allowance : Action

pub record Outcome : Type 0 where
  pub action : Action
  pub model : String
  pub max_tokens : ℤ
  pub reason : RejectReason
  pub advice : String

unfoldable pub contains : String → List String → Bool
contains x [] = false
contains x (y ∷ ys) = str_eq y x || contains x ys

-- What a round returns, or else what the later rounds return.
abbrev pub returned : Option Outcome → Outcome → Outcome
returned (some outcome) rest = outcome
returned none rest = rest

module _ (F : Type 0) ⦃d : Float F⦄ where
  unfoldable pub is_verified_cheaper_model : String → String → Bool
  is_verified_cheaper_model requested suggested =
      if str_eq suggested "" || str_eq suggested requested
      then false
      else contains suggested (cheaper_alternatives F requested)

module _ {F : Type 0} ⦃d : Float F⦄ where
  open d use {lt, milli, trunc}

  unfoldable pub default_config : Config F
  default_config = record { min_confidence = milli 600; min_partial_allowance_tokens = pos 64 }

  -- The suggested allowance, cut down to what is left.
  unfoldable pub allowance_of : Context F → Suggestion F → ℤ
  allowance_of ctx s =
      let remaining = trunc ctx.remaining_tokens in
      if ltb_ℤ remaining s.suggested_max_tokens then remaining else s.suggested_max_tokens

  abbrev pub retry : Suggestion F → Outcome
  retry s = record {
    action = retry_with_model;
    model = s.suggested_model;
    max_tokens = pos 0;
    reason = no_reason;
    advice = s.risk_note;
  }

  abbrev pub partial : ℤ → Suggestion F → Outcome
  partial allowance s = record {
    action = partial_allowance;
    model = "";
    max_tokens = allowance;
    reason = no_reason;
    advice = s.risk_note;
  }

  -- The `switch` on the type of a suggestion; `none` goes on to the next one.
  unfoldable pub act_on : Context F → Config F → Suggestion F → SuggestionType → Option Outcome
  act_on ctx cfg s switch_model =
      if is_verified_cheaper_model F ctx.requested_model s.suggested_model
      then some (retry s)
      else none
  act_on ctx cfg s reduce_max_tokens =
      let allowance = allowance_of ctx s in
      if leb_ℤ cfg.min_partial_allowance_tokens allowance && ltb_ℤ allowance ctx.requested_tokens
      then some (partial allowance s)
      else none
  act_on ctx cfg s _ = none

  -- What one round returns, if it returns.
  unfoldable pub act : Context F → Config F → Suggestion F → Option Outcome
  act ctx cfg s = if lt s.confidence cfg.min_confidence then none else act_on ctx cfg s s.kind

  -- The note that is carried on.
  unfoldable pub keep_note : Config F → String → Suggestion F → String
  unfolding type_text
  keep_note cfg note s =
      let own = String.◌++◌ (type_text s.kind) (String.◌++◌ ": " s.risk_note) in
      if lt s.confidence cfg.min_confidence then note else (elim s.kind [
        | summarize_first ↦ if str_eq note "" then own else note
        | reduce_tool_calls ↦ if str_eq note "" then own else note
        | _ ↦ note
      ])

  -- The loop of `Decide`.
  unfoldable pub decide_from : Context F → Config F → String → List (Suggestion F) → Outcome
  decide_from ctx cfg note [] = record {
    action = reject;
    model = "";
    max_tokens = pos 0;
    reason = ctx.fail_reason;
    advice = note;
  }
  decide_from ctx cfg note (s ∷ suggestions) =
      returned (act ctx cfg s) (decide_from ctx cfg (keep_note cfg note s) suggestions)

  unfoldable pub decide : Context F → List (Suggestion F) → Config F → Outcome
  unfolding decide_from
  decide ctx suggestions cfg = decide_from ctx cfg "" suggestions
