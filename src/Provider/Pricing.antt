-- ===== src/Provider/Pricing.antt =====
-- gateway/internal/provider/pricing.go, and `NormalizeModel` of tokenizer.go. The pricing table is
-- a map, which Go visits in any order; here it has the order of the source.
pub mod Cost
pub mod Cheaper
use Prim.Native.Char.{code}
use Prim.Native.String
use text.Mathlib.Text.{starts_with}
use budget_governor.Prelude.{
  ℕ, String, Bool, true, false, not, ◌&&◌, ◌||◌, Option, none, some, List, [], ◌∷◌, ◌==◌, str_eq,
  if◌then◌else◌,
}
use budget_governor.Prelude.Int.{ℤ, pos, ◌-ℤ◌, int64, ltb_ℤ}
use budget_governor.Prelude.Float.{Float, nought}

-- What stands behind the first slash.
unfoldable pub behind_slash : String → Option String
behind_slash String.[] = none
behind_slash (String.◌∷◌ c s) = if code c == b'/' then some s else behind_slash s

unfoldable pub normalize_model : String → String
unfolding behind_slash
normalize_model model = elim (behind_slash model) [ some rest ↦ rest | none ↦ model ]

-- Dollars for a million tokens.
pub record PricePerMillion (F : Type 0) : Type 0 where
  pub input : F
  pub cached_input : F
  pub output : F

pub data Family : Type 0 where
  openai anthropic mock unknown : Family

unfoldable pub model_family : String → Family
unfolding normalize_model
model_family model =
    let m = normalize_model model in
    if starts_with m "gpt-" || starts_with m "o1" || starts_with m "o3" || starts_with m "o4"
    then openai
    else (if starts_with m "claude-"
        then anthropic
        else (if starts_with m "mock-" then mock else unknown))

abbrev pub same_family : Family → Family → Bool
same_family openai openai = true
same_family anthropic anthropic = true
same_family mock mock = true
same_family unknown unknown = true
same_family _ _ = false

abbrev pub Table : Type 0 → Type 0
Table F = List (String × PricePerMillion F)

-- The entry of the map under this key.
unfoldable pub find_price : {F : Type 0} → String → Table F → Option (PricePerMillion F)
find_price model [] = none
find_price model ((name, p) ∷ table) = if str_eq name model then some p else find_price model table

module _ {F : Type 0} ⦃d : Float F⦄ where
  open d use {of_int, milli, add, mul, div, lt}

  abbrev pub price : ℕ → ℕ → ℕ → PricePerMillion F
  price i c o = record { input = milli i; cached_input = milli c; output = milli o }

  -- The prices, in thousandths of a dollar.
  unfoldable pub pricing_table : Table F
  pricing_table =
      ("gpt-5.4", price 2500 250 15000)
      ∷ ("gpt-5.4-mini", price 750 75 4500)
      ∷ ("gpt-5.4-nano", price 200 20 1250)
      ∷ ("gpt-5", price 1250 125 10000)
      ∷ ("gpt-5-mini", price 250 25 2000)
      ∷ ("gpt-5-nano", price 50 5 400)
      ∷ ("gpt-4.1", price 2000 500 8000)
      ∷ ("gpt-4.1-mini", price 400 100 1600)
      ∷ ("gpt-4.1-nano", price 100 25 400)
      ∷ ("gpt-4o", price 2500 1250 10000)
      ∷ ("gpt-4o-mini", price 150 75 600)
      ∷ ("o1", price 15000 7500 60000)
      ∷ ("o3", price 2000 500 8000)
      ∷ ("o3-mini", price 1100 550 4400)
      ∷ ("o4-mini", price 1100 275 4400)
      ∷ ("claude-fable-5-1", price 10000 250 50000)
      ∷ ("claude-opus-5", price 5000 500 25000)
      ∷ ("claude-sonnet-5", price 2000 200 10000)
      ∷ ("claude-haiku-4-5", price 1000 100 5000)
      ∷ ("mock-large", price 5000 500 25000)
      ∷ ("mock-medium", price 1000 100 5000)
      ∷ ("mock-small", price 150 15 600)
      ∷ []

  unfoldable pub price_of : String → Option (PricePerMillion F)
  price_of model = find_price (normalize_model model) pricing_table

  -- One summand of the cost.
  abbrev pub charge : ℤ → F → F
  charge tokens per_million = mul (div (of_int tokens) (of_int (pos 1_000_000))) per_million

  unfoldable pub cost_at : PricePerMillion F → ℤ → ℤ → ℤ → F
  cost_at p tokens_in cached_input_tokens tokens_out =
      let left = int64 (tokens_in -ℤ cached_input_tokens) in
      let uncached = (if ltb_ℤ left (pos 0) then pos 0 else left) in
      add (add (charge uncached p.input) (charge cached_input_tokens p.cached_input))
        (charge tokens_out p.output)

  unfoldable pub cost_usd : String → ℤ → ℤ → ℤ → F
  cost_usd model tokens_in cached_input_tokens tokens_out = elim (price_of model) [
    | none ↦ nought
    | some p ↦ cost_at p tokens_in cached_input_tokens tokens_out
  ]

  -- The tests of one round of the loop in `CheaperAlternatives`.
  unfoldable pub is_cheaper : String → PricePerMillion F → String × PricePerMillion F → Bool
  is_cheaper model base (name, p) =
      not (str_eq name model)
      && (same_family (model_family name) (model_family model) && lt p.output base.output)

  unfoldable pub cheaper_names : String → PricePerMillion F → Table F → List String
  cheaper_names model base [] = []
  cheaper_names model base (e ∷ table) =
      let rest = cheaper_names model base table in
      if is_cheaper model base e then e.0 ∷ rest else rest

-- The arithmetic in which the prices are compared is an argument.
module _ (F : Type 0) ⦃d : Float F⦄ where
  abbrev alternatives_to : String → Option (PricePerMillion F) → List String
  alternatives_to model none = []
  alternatives_to model (some base) = cheaper_names model base pricing_table

  unfoldable pub cheaper_alternatives : String → List String
  cheaper_alternatives model = alternatives_to model (price_of model)
