-- ===== src/Examples/Advice.antt =====
-- An answer of a language model, for advisor/app and providers/pricing.py.
use budget_governor.Prelude.{◌≡◌, refl, String, Option, none, some, List, [], ◌∷◌, map, arith}
use budget_governor.Prelude.Int.{ℤ, pos, ◌-ℤ◌}
use budget_governor.Prelude.Float.{fixed, fixed_of_int}
use budget_governor.Budget.Types.{over_task_budget}
use budget_governor.Provider.Pricing.{price_of, cost_usd, cheaper_alternatives}
use budget_governor.Policy.Engine.{Context, default_config, retry_with_model, contains}
use budget_governor.Services.Pricing.{
  price, normalize_model, has_slash, second_part, model_family, get_price, pricing_table,
  is_alternative, alternatives, cost_usd as mirror_cost,
  cheaper_alternatives as mirror_alternatives,
}
use budget_governor.Services.Pricing.Mirror.{mirror_lem}
use budget_governor.Services.Advisor.{
  switch_model, RawSuggestion, Suggestion, kind_of, characters, in_bounds, validate_one,
  validate_all, is_meaningful, validate_cross_fields, model_validate, seen_kind, guard_from,
  apply_guardrails, parse_llm_output, get_suggestions, sent, parsed, read_as,
}
use budget_governor.Services.Advisor.Guarded.{IsAnswer, get_suggestions-IsGuarded}
use budget_governor.Services.Advisor.Heeded.{chosen, decide-get_suggestions}

-- The division of integers, in fixed point.
abbrev quotient : ℤ → ℤ → ℤ
quotient a b = fixed.div (fixed_of_int a) (fixed_of_int b)

mirror_lem_example :
    (price {F = ℤ} "openai/gpt-5" ≡ price_of "openai/gpt-5")
    × (mirror_alternatives ℤ "openai/gpt-5" ≡ cheaper_alternatives ℤ "openai/gpt-5")
    × (mirror_cost quotient "openai/gpt-5" (pos 900) (pos 100) (pos 50)
        ≡ cost_usd "openai/gpt-5" (pos 900) (pos 100) (pos 50))
unfolding ◌-ℤ◌
mirror_lem_example =
    mirror_lem quotient (λ n h. refl) "openai/gpt-5" (pos 900) (pos 100) (pos 50)
      (record { below = omega arith; above = omega arith })
      (record { below = omega arith; above = omega arith })
      (record { below = omega arith; above = omega arith })

abbrev raw : String → String → RawSuggestion ℤ
raw type model = record {
  type_text = type;
  raw_model = some model;
  raw_max_tokens = none;
  raw_confidence = pos 900_000_000;
  raw_note = "weaker";
}

-- The first model is not cheaper, the third suggestion repeats a type.
abbrev answers : String → Option (List (RawSuggestion ℤ))
answers _ = some (
    raw "switch_model" "gpt-5.4"
    ∷ raw "switch_model" "gpt-5-mini"
    ∷ raw "switch_model" "gpt-5-nano"
    ∷ [])

abbrev mini : Suggestion ℤ
mini = record {
  kind = switch_model;
  suggested_model = some "gpt-5-mini";
  suggested_max_tokens = none;
  confidence = pos 900_000_000;
  risk_note = "weaker";
}

suggestions_test : get_suggestions parsed answers "gpt-5" (some "{}") ≡ some (mini ∷ [])
unfolding get_suggestions parse_llm_output model_validate validate_all validate_one in_bounds
    kind_of characters validate_cross_fields is_meaningful apply_guardrails guard_from seen_kind
    contains mirror_alternatives price normalize_model has_slash second_part get_price pricing_table
    alternatives is_alternative model_family
suggestions_test = refl

-- Four suggestions are too many.
too_many_test :
    get_suggestions parsed
      (λ (s : String). some (map (λ (t : String). raw t "gpt-5-mini") ("a" ∷ "b" ∷ "c" ∷ "d" ∷ [])))
      "gpt-5"
      (some "{}")
    ≡ some []
unfolding get_suggestions parse_llm_output model_validate apply_guardrails guard_from
too_many_test = refl

get_suggestions-IsGuarded_example :
    IsAnswer parsed answers "gpt-5" (some "{}") (get_suggestions parsed answers "gpt-5" (some "{}"))
get_suggestions-IsGuarded_example = get_suggestions-IsGuarded parsed answers "gpt-5" (some "{}")

abbrev context : Context ℤ
context = record {
  requested_model = "gpt-5";
  requested_tokens = pos 800;
  remaining_tokens = fixed_of_int (pos 100);
  fail_reason = over_task_budget;
}

decide-get_suggestions_example :
    (m : String) × (mini.suggested_model ≡ some m)
    × ((chosen context default_config (mini ∷ [])).action ≡ retry_with_model)
    × ((chosen context default_config (mini ∷ [])).model ≡ m)
unfolding default_config sent
decide-get_suggestions_example =
    decide-get_suggestions context default_config parsed answers (some "{}") mini []
      (read_as mini ∷ []) suggestions_test refl refl refl
