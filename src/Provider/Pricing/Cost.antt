-- ===== src/Provider/Pricing/Cost.antt =====
-- `CostUSD` is never negative.
use budget_governor.Prelude.{
  ◌≡◌, inl, inr, String, some, [], ◌∷◌, arith, All, Option-cases, Bool-cases, str_eq, ℕ,
  if◌then◌else◌,
}
use mathlib.Core.Option.{some-injective}
use mathlib.Core.Path.{subst}
use budget_governor.Prelude.Int.{ℤ, pos, ltb_ℤ, ◌≤ℤ◌, ◌-ℤ◌, int64}
use budget_governor.Prelude.Float.{Float, nought, ◌≼◌, IsOrdered}
use budget_governor.Provider.Pricing.{
  PricePerMillion, Table, normalize_model, price, charge, find_price, pricing_table, price_of,
  cost_at, cost_usd,
}

floor_nonneg : (z : ℤ) → pos 0 ≤ℤ (if ltb_ℤ z (pos 0) then pos 0 else z)
floor_nonneg z = ground arith

module _ {F : Type 0} ⦃d : Float F⦄ (laws : IsOrdered F) where
  open d use {add, of_int, div, mul, lt}
  open laws use {le_trans, le-add, mul_nonneg, div_nonneg, of_int_sign, milli_nonneg}

  abbrev IsNonneg : PricePerMillion F → Type 0
  IsNonneg p = (nought ≼ p.input) × (nought ≼ p.cached_input) × (nought ≼ p.output)

  price-IsNonneg : (i c o : ℕ) → IsNonneg (price i c o)
  price-IsNonneg i c o = (milli_nonneg i, milli_nonneg c, milli_nonneg o)

  pricing_table-IsNonneg : All (λ (e : String × PricePerMillion F). IsNonneg e.1) pricing_table
  unfolding pricing_table
  pricing_table-IsNonneg = (
    price-IsNonneg _ _ _,
    (
      price-IsNonneg _ _ _,
      (
        price-IsNonneg _ _ _,
        (
          price-IsNonneg _ _ _,
          (
            price-IsNonneg _ _ _,
            (
              price-IsNonneg _ _ _,
              (
                price-IsNonneg _ _ _,
                (
                  price-IsNonneg _ _ _,
                  (
                    price-IsNonneg _ _ _,
                    (
                      price-IsNonneg _ _ _,
                      (
                        price-IsNonneg _ _ _,
                        (
                          price-IsNonneg _ _ _,
                          (
                            price-IsNonneg _ _ _,
                            (
                              price-IsNonneg _ _ _,
                              (
                                price-IsNonneg _ _ _,
                                (
                                  price-IsNonneg _ _ _,
                                  (
                                    price-IsNonneg _ _ _,
                                    (
                                      price-IsNonneg _ _ _,
                                      (
                                        price-IsNonneg _ _ _,
                                        (
                                          price-IsNonneg _ _ _,
                                          (price-IsNonneg _ _ _, (price-IsNonneg _ _ _, tt)),
                                        ),
                                      ),
                                    ),
                                  ),
                                ),
                              ),
                            ),
                          ),
                        ),
                      ),
                    ),
                  ),
                ),
              ),
            ),
          ),
        ),
      ),
    ),
  )

  find_price-IsNonneg :
      (model : String) (table : Table F) {p : PricePerMillion F}
      → All (λ (e : String × PricePerMillion F). IsNonneg e.1) table
      → find_price model table ≡ some p
      → IsNonneg p
  unfolding find_price
  find_price-IsNonneg model [] h e = cc
  find_price-IsNonneg model ((name, q) ∷ table) {p} h e = elim (Bool-cases (str_eq name model)) [
    | inl a ↦ subst IsNonneg (some-injective _ _ (rw a at e)) h.0
    | inr a ↦ find_price-IsNonneg model table h.1 (rw a at e)
  ]

  add_nonneg : (x y : F) → nought ≼ x → nought ≼ y → nought ≼ add x y
  add_nonneg x y h k = le_trans _ x _ h (le-add x y k)

  of_int_nonneg : (z : ℤ) → pos 0 ≤ℤ z → nought ≼ of_int z
  of_int_nonneg z h = ground (arith, of_int_sign z)

  charge_nonneg : (z : ℤ) (x : F) → pos 0 ≤ℤ z → nought ≼ x → nought ≼ charge z x
  charge_nonneg z x h k =
      mul_nonneg _ x
        (div_nonneg _ _ (of_int_nonneg z h) (of_int_nonneg (pos 1_000_000) (omega arith))) k

  cost_at_nonneg :
      (p : PricePerMillion F) (tokens_in cached tokens_out : ℤ)
      → IsNonneg p
      → pos 0 ≤ℤ cached
      → pos 0 ≤ℤ tokens_out
      → nought ≼ cost_at p tokens_in cached tokens_out
  unfolding cost_at
  cost_at_nonneg p tokens_in cached tokens_out (i, c, o) hc ho =
      add_nonneg _ _
        (add_nonneg _ _ (charge_nonneg _ p.input (floor_nonneg (int64 (tokens_in -ℤ cached))) i)
          (charge_nonneg cached p.cached_input hc c))
        (charge_nonneg tokens_out p.output ho o)

  -- If the arithmetic is ordered, and the cached and the output tokens are not negative, then
  -- whatever the model and the input tokens, the cost is not negative.
  pub cost_usd_nonneg :
      (model : String) (tokens_in cached tokens_out : ℤ)
      → pos 0 ≤ℤ cached
      → pos 0 ≤ℤ tokens_out
      → ◌≼◌ {F = F} nought (cost_usd model tokens_in cached tokens_out)
  unfolding cost_usd price_of
  cost_usd_nonneg model tokens_in cached tokens_out hc ho =
      elim (Option-cases (find_price (normalize_model model) (pricing_table {F = F}))) [
        | inl e ↦ rw (e, cost_usd) (of_int_nonneg (pos 0) (omega arith))
        | inr (p, e) ↦
            rw (e, cost_usd)
              (cost_at_nonneg p tokens_in cached tokens_out
                (find_price-IsNonneg (normalize_model model) pricing_table pricing_table-IsNonneg e)
                hc ho)
      ]
