-- ===== src/Services/Pricing.antt =====
-- providers/pricing.py, the price table of the services in Python. A dictionary keeps the order in
-- which it was written. The division of an integer by an integer, which Python rounds once, is a
-- parameter.
pub mod Mirror
use Prim.Native.Char.{code}
use Prim.Native.String
use text.Mathlib.Text.{starts_with}
use budget_governor.Prelude.{
  ℕ, String, Bool, true, false, not, ◌&&◌, ◌||◌, Option, none, some, List, [], ◌∷◌, ◌==◌, str_eq,
  if◌then◌else◌,
}
use budget_governor.Prelude.Int.{ℤ, pos, ◌-ℤ◌, ltb_ℤ}
use budget_governor.Prelude.Float.{Float, nought}
use budget_governor.Provider.Pricing.{PricePerMillion, Table}

-- "/" in model
unfoldable pub has_slash : String → Bool
has_slash String.[] = false
has_slash (String.◌∷◌ c s) = code c == b'/' || has_slash s

-- model.split("/", 1)[1], where there is a slash
unfoldable pub second_part : String → String
second_part String.[] = ""
second_part (String.◌∷◌ c s) = if code c == b'/' then s else second_part s

unfoldable pub normalize_model : String → String
normalize_model model = if has_slash model then second_part model else model

unfoldable pub model_family : String → String
model_family model =
    let m = normalize_model model in
    if starts_with m "gpt-" || starts_with m "o1" || starts_with m "o3" || starts_with m "o4"
    then "openai"
    else (if starts_with m "claude-"
        then "anthropic"
        else (if starts_with m "mock-" then "mock" else "unknown"))

-- PRICING_TABLE.get
unfoldable pub get_price : {F : Type 0} → Table F → String → Option (PricePerMillion F)
get_price [] model = none
get_price ((name, p) ∷ table) model = if str_eq name model then some p else get_price table model

module _ {F : Type 0} ⦃d : Float F⦄ where
  open d use {milli, add, mul, lt}

  abbrev pub priced : ℕ → ℕ → ℕ → PricePerMillion F
  priced i c o = record { input = milli i; cached_input = milli c; output = milli o }

  -- In thousandths of a dollar.
  unfoldable pub pricing_table : Table F
  pricing_table =
      ("gpt-5.4", priced 2500 250 15000)
      ∷ ("gpt-5.4-mini", priced 750 75 4500)
      ∷ ("gpt-5.4-nano", priced 200 20 1250)
      ∷ ("gpt-5", priced 1250 125 10000)
      ∷ ("gpt-5-mini", priced 250 25 2000)
      ∷ ("gpt-5-nano", priced 50 5 400)
      ∷ ("gpt-4.1", priced 2000 500 8000)
      ∷ ("gpt-4.1-mini", priced 400 100 1600)
      ∷ ("gpt-4.1-nano", priced 100 25 400)
      ∷ ("gpt-4o", priced 2500 1250 10000)
      ∷ ("gpt-4o-mini", priced 150 75 600)
      ∷ ("o1", priced 15000 7500 60000)
      ∷ ("o3", priced 2000 500 8000)
      ∷ ("o3-mini", priced 1100 550 4400)
      ∷ ("o4-mini", priced 1100 275 4400)
      ∷ ("claude-fable-5-1", priced 10000 250 50000)
      ∷ ("claude-opus-5", priced 5000 500 25000)
      ∷ ("claude-sonnet-5", priced 2000 200 10000)
      ∷ ("claude-haiku-4-5", priced 1000 100 5000)
      ∷ ("mock-large", priced 5000 500 25000)
      ∷ ("mock-medium", priced 1000 100 5000)
      ∷ ("mock-small", priced 150 15 600)
      ∷ []

  unfoldable pub price : String → Option (PricePerMillion F)
  price model = get_price pricing_table (normalize_model model)

  -- `true_div` is `/` on integers, which have no bound here.
  module _ (true_div : ℤ → ℤ → F) where
    abbrev pub share : ℤ → F → F
    share tokens per_million = mul (true_div tokens (pos 1_000_000)) per_million

    unfoldable pub priced_at : PricePerMillion F → ℤ → ℤ → ℤ → F
    priced_at p tokens_in cached_input_tokens tokens_out =
        let left = tokens_in -ℤ cached_input_tokens in
        let uncached = (if ltb_ℤ left (pos 0) then pos 0 else left) in
        add (add (share uncached p.input) (share cached_input_tokens p.cached_input))
          (share tokens_out p.output)

    unfoldable pub cost_usd : String → ℤ → ℤ → ℤ → F
    cost_usd model tokens_in cached_input_tokens tokens_out = elim (price model) [
      | none ↦ nought
      | some p ↦ priced_at p tokens_in cached_input_tokens tokens_out
    ]

  -- The test of the comprehension in `cheaper_alternatives`.
  unfoldable pub is_alternative : String → PricePerMillion F → String × PricePerMillion F → Bool
  is_alternative model base (name, p) =
      not (str_eq name model)
      && (str_eq (model_family name) (model_family model) && lt p.output base.output)

  unfoldable pub alternatives : String → PricePerMillion F → Table F → List String
  alternatives model base [] = []
  alternatives model base (e ∷ table) =
      let rest = alternatives model base table in
      if is_alternative model base e then e.0 ∷ rest else rest

-- The arithmetic in which the prices are compared is an argument.
module _ (F : Type 0) ⦃d : Float F⦄ where
  abbrev alternatives_for : String → Option (PricePerMillion F) → List String
  alternatives_for model none = []
  alternatives_for model (some base) = alternatives model base pricing_table

  unfoldable pub cheaper_alternatives : String → List String
  cheaper_alternatives model = alternatives_for model (price model)
