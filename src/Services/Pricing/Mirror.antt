-- ===== src/Services/Pricing/Mirror.antt =====
-- The price table of the services in Python is a mirror of the gateway's.
use budget_governor.Prelude.{
  ◌≤◌, ◌^◌, ap, if-both, ◌≡◌, refl, String, none, some, [], ◌∷◌, arith, str_eq, if◌then◌else◌,
  Bool-cases, Option-cases, inl, inr,
}
use budget_governor.Prelude.Int.{ℤ, pos, pos_part, neg_part, ltb_ℤ, ◌-ℤ◌, IsInt64, int64_self}
use budget_governor.Prelude.Float.{Float}
use budget_governor.Provider.Pricing.{
  behind_slash, PricePerMillion, Table, Family, openai, anthropic, mock, unknown, same_family,
  charge, find_price, price_of, cost_at, normalize_model, model_family, pricing_table, cost_usd,
  cheaper_alternatives, is_cheaper, cheaper_names,
}
use budget_governor.Services.Pricing.{
  has_slash, second_part, get_price, price, share, priced_at, is_alternative, alternatives,
  normalize_model as mirror_normalize, model_family as mirror_family, pricing_table as mirror_table,
  cost_usd as mirror_cost, cheaper_alternatives as mirror_alternatives,
}

-- What stands behind the first slash, if there is one.
slash_cases : (s : String) → behind_slash s ≡ (if has_slash s then some (second_part s) else none)
unfolding behind_slash has_slash second_part
slash_cases String.[] = refl
slash_cases (String.◌∷◌ c s) = ground (arith, slash_cases s)

pub normalize_model-eq : (m : String) → mirror_normalize m ≡ normalize_model m
unfolding mirror_normalize normalize_model
normalize_model-eq m = elim (Bool-cases (has_slash m)) [
  | inl e ↦ rw (normalize_model, slash_cases m, e)
  | inr e ↦ rw (normalize_model, slash_cases m, e)
]

abbrev family_text : Family → String
family_text openai = "openai"
family_text anthropic = "anthropic"
family_text mock = "mock"
family_text unknown = "unknown"

model_family-eq : (m : String) → mirror_family m ≡ family_text (model_family m)
unfolding mirror_family model_family
model_family-eq m = rw (normalize_model-eq m) (ground arith)

same_family-eq : (a b : Family) → str_eq (family_text a) (family_text b) ≡ same_family a b
same_family-eq openai openai = refl
same_family-eq openai anthropic = refl
same_family-eq openai mock = refl
same_family-eq openai unknown = refl
same_family-eq anthropic openai = refl
same_family-eq anthropic anthropic = refl
same_family-eq anthropic mock = refl
same_family-eq anthropic unknown = refl
same_family-eq mock openai = refl
same_family-eq mock anthropic = refl
same_family-eq mock mock = refl
same_family-eq mock unknown = refl
same_family-eq unknown openai = refl
same_family-eq unknown anthropic = refl
same_family-eq unknown mock = refl
same_family-eq unknown unknown = refl

-- An integer that a float64 holds exactly.
pub record IsSafe (n : ℤ) : Type 0 where
  pub below : pos_part n ≤ 2 ^ 53
  pub above : neg_part n ≤ 2 ^ 53

IsSafe-IsInt64 : (n : ℤ) → IsSafe n → IsInt64 n
IsSafe-IsInt64 n h = record { below = omega (arith, h.below); above = omega (arith, h.above) }

module _ {F : Type 0} ⦃d : Float F⦄ where
  tables_agree : mirror_table {F = F} ≡ pricing_table
  unfolding mirror_table pricing_table
  tables_agree = refl

  get_price-eq : (table : Table F) (m : String) → get_price table m ≡ find_price m table
  unfolding get_price find_price
  get_price-eq [] m = refl
  get_price-eq ((name, p) ∷ table) m = rw (get_price-eq table m)

  pub price-eq : (m : String) → price {F = F} m ≡ price_of m
  unfolding price price_of
  price-eq m = rw (normalize_model-eq m, tables_agree) (get_price-eq _ _)

  is_alternative-eq :
      (m : String) (base : PricePerMillion F) (e : String × PricePerMillion F)
      → is_alternative m base e ≡ is_cheaper m base e
  unfolding is_alternative is_cheaper
  is_alternative-eq m base (name, p) =
      rw (
        model_family-eq name,
        model_family-eq m,
        same_family-eq (model_family name) (model_family m),
      )

  alternatives-eq :
      (m : String) (base : PricePerMillion F) (table : Table F)
      → alternatives m base table ≡ cheaper_names m base table
  unfolding alternatives cheaper_names
  alternatives-eq m base [] = refl
  alternatives-eq m base (e ∷ table) = rw (is_alternative-eq m base e, alternatives-eq m base table)

  module _ (true_div : ℤ → ℤ → F)
      (exact : (n : ℤ)
        → IsSafe n
        → true_div n (pos 1_000_000) ≡ d.div (d.of_int n) (d.of_int (pos 1_000_000))) where
    share-eq : (n : ℤ) (x : F) → IsSafe n → share true_div n x ≡ charge n x
    share-eq n x h = ap (λ q. d.mul q x) (exact n h)

    uncached-IsSafe : (left : ℤ) → IsSafe left → IsSafe (if ltb_ℤ left (pos 0) then pos 0 else left)
    uncached-IsSafe left h =
        if-both IsSafe (ltb_ℤ left (pos 0)) _ _
          (λ _. record { below = omega arith; above = omega arith }) (λ _. h)

    priced_at-eq :
        (p : PricePerMillion F) (tokens_in cached tokens_out : ℤ)
        → IsSafe (tokens_in -ℤ cached)
        → IsSafe cached
        → IsSafe tokens_out
        → priced_at true_div p tokens_in cached tokens_out ≡ cost_at p tokens_in cached tokens_out
    unfolding priced_at cost_at
    priced_at-eq p tokens_in cached tokens_out h k l =
        let left = tokens_in -ℤ cached in
        let a =
          share-eq (if ltb_ℤ left (pos 0) then pos 0 else left) p.input (uncached-IsSafe left h) in
        let b = share-eq cached p.cached_input k in
        let c = share-eq tokens_out p.output l in
        rw (cost_at, int64_self left (IsSafe-IsInt64 left h)) (λ i. d.add (d.add (a i) (b i)) (c i))

module _ (F : Type 0) ⦃d : Float F⦄ where
  pub cheaper_alternatives-eq :
      (model : String) → mirror_alternatives F model ≡ cheaper_alternatives F model
  unfolding mirror_alternatives cheaper_alternatives
  cheaper_alternatives-eq model =
      rw (price-eq {F = F} model) (elim (Option-cases (price_of {F = F} model)) [
        | inl e ↦ rw e refl
        | inr (base, e) ↦ rw e (rw (tables_agree {F = F}) (alternatives-eq {F = F} model base _))
      ])

module _ {F : Type 0} ⦃d : Float F⦄ where
  -- Both programs find the same price for a model and list the same cheaper alternatives. They
  -- compute the same cost, if the division of integers in Python is that of float64 on numbers of at
  -- most 2⁵³, and the tokens that are cached, those that are not and those that come out are so.
  pub mirror_lem :
      (true_div : ℤ → ℤ → F)
      → ((n : ℤ)
          → IsSafe n
          → true_div n (pos 1_000_000) ≡ d.div (d.of_int n) (d.of_int (pos 1_000_000)))
      → (model : String) (tokens_in cached_input_tokens tokens_out : ℤ)
      → IsSafe (tokens_in -ℤ cached_input_tokens)
      → IsSafe cached_input_tokens
      → IsSafe tokens_out
      → (price {F = F} model ≡ price_of model)
        × (mirror_alternatives F model ≡ cheaper_alternatives F model)
        × (mirror_cost true_div model tokens_in cached_input_tokens tokens_out
            ≡ cost_usd model tokens_in cached_input_tokens tokens_out)
  unfolding mirror_cost cost_usd
  mirror_lem true_div exact model tokens_in cached tokens_out h k l = (
    price-eq model,
    cheaper_alternatives-eq F model,
    rw (price-eq model, mirror_cost)
        (elim (Option-cases (price_of {F = F} model)) [
          | inl e ↦ rw (e, cost_usd) refl
          | inr (base, e) ↦
              rw (e, cost_usd) (priced_at-eq true_div exact base tokens_in cached tokens_out h k l)
        ]),
  )
