-- ===== src/Examples/Models.antt =====
-- Two requests for models of the price table, for gateway/internal/provider and policy.
use budget_governor.Prelude.{◌≡◌, refl, ◌↔◌, some, List, [], ◌∷◌}
use budget_governor.Prelude.Int.{ℤ, pos, ◌+ℤ◌, ◌-ℤ◌, int64}
use budget_governor.Prelude.Float.{fixed, fixed_of_int}
use budget_governor.Budget.Types.{no_reason, over_task_budget}
use budget_governor.Provider.Pricing.{
  PricePerMillion, pricing_table, price_of, cost_usd, cheaper_alternatives, find_price,
  normalize_model, behind_slash, cost_at, cheaper_names, is_cheaper, model_family,
}
use budget_governor.Provider.Pricing.Cheaper.{IsIn, IsBargain, cheaper_alternatives_iff}
use budget_governor.Policy.Engine.{
  switch_model, reduce_max_tokens, Suggestion, Context, default_config, decide, Outcome,
  partial_allowance, contains, is_verified_cheaper_model, allowance_of, act_on, act, keep_note,
  decide_from, type_text,
}

-- A million tokens of each kind.
cost_test :
    cost_usd "openai/gpt-5-mini" (pos 2_000_000) (pos 1_000_000) (pos 1_000_000) ≡ pos 2_275_000_000
unfolding cost_usd price_of find_price normalize_model behind_slash cost_at pricing_table ◌+ℤ◌ ◌-ℤ◌
    int64
cost_test = refl

alternatives_test : cheaper_alternatives ℤ "mock-large" ≡ "mock-medium" ∷ "mock-small" ∷ []
unfolding cheaper_alternatives price_of find_price normalize_model behind_slash pricing_table
    cheaper_names is_cheaper model_family
alternatives_test = refl

cheaper_alternatives_iff_example : IsIn "mock-small" (cheaper_alternatives ℤ "mock-large") ↔ (
    (base : PricePerMillion ℤ) × (price_of "mock-large" ≡ some base)
    × IsBargain "mock-large" base "mock-small" pricing_table)
cheaper_alternatives_iff_example = cheaper_alternatives_iff {F = ℤ} "mock-large" "mock-small"

abbrev suggestions : List (Suggestion ℤ)
suggestions =
    record {
      kind = switch_model;
      suggested_model = "gpt-5-mini";
      suggested_max_tokens = pos 0;
      confidence = pos 900_000_000;
      risk_note = "other family";
    }
    ∷ record {
      kind = reduce_max_tokens;
      suggested_model = "";
      suggested_max_tokens = pos 800;
      confidence = pos 800_000_000;
      risk_note = "shorter";
    }
    ∷ []

abbrev context : Context ℤ
context = record {
  requested_model = "mock-large";
  requested_tokens = pos 1500;
  remaining_tokens = fixed_of_int (pos 500);
  fail_reason = over_task_budget;
}

abbrev allowance : Outcome
allowance = record {
  action = partial_allowance;
  model = "";
  max_tokens = pos 500;
  reason = no_reason;
  advice = "shorter";
}

decide_test : decide context suggestions default_config ≡ allowance
unfolding decide decide_from act act_on is_verified_cheaper_model contains cheaper_alternatives
    price_of find_price normalize_model behind_slash pricing_table cheaper_names is_cheaper
    model_family allowance_of keep_note type_text default_config
decide_test = refl
