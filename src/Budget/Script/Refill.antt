-- ===== src/Budget/Script/Refill.antt =====
-- The lazy refill of checkAndDecrement.lua, lines 81 to 107.
use budget_governor.Prelude.{
  ◌≡◌, true, false, Option, none, some, String, arith, ◌⊎◌, inl, inr, Bool-cases,
}
use budget_governor.Prelude.Float.{Float, nought, ◌≼◌, IsOrdered}
use budget_governor.Budget.Script.{Hash, refill, elapsed_since, compute, or_else}

module _ {F : Type 0} ⦃d : Float F⦄ where
  open d use {lt}

  -- A stored balance is not above its limit.
  abbrev pub IsWithin : F → Option F → Type 0
  IsWithin limit none = Unit
  IsWithin limit (some x) = x ≼ limit

  -- What was stored is not lost.
  abbrev pub IsKept : Option F → F → Type 0
  IsKept none x = Unit
  IsKept (some y) x = y ≼ x

  -- The balance of a dimension that is enforced lies between what was stored and the limit.
  abbrev pub IsFilled : F → Option F → F → Type 0
  IsFilled limit stored x = (lt nought limit ≡ false) ⊎ (IsKept stored x × (x ≼ limit))

  module _ (laws : IsOrdered F) where
    open laws use {lt_irrefl, le-add, mul_nonneg}

    pub elapsed_since_nonneg : (now last : F) → nought ≼ elapsed_since now last
    unfolding elapsed_since
    elapsed_since_nonneg now last = ground (arith, lt_irrefl nought)

    pub refill_bounds :
        (limit remaining elapsed rate : F)
        → lt nought limit ≡ true
        → remaining ≼ limit
        → nought ≼ elapsed
        → nought ≼ rate
        → (remaining ≼ refill limit remaining elapsed rate)
          × (refill limit remaining elapsed rate ≼ limit)
    unfolding refill
    refill_bounds limit remaining elapsed rate e h p q = ground (
      arith,
      lt_irrefl limit,
      le-add remaining (d.mul elapsed rate) (mul_nonneg elapsed rate p q),
    )

    refill-IsFilled :
        (limit elapsed rate : F) (stored : Option F)
        → nought ≼ elapsed
        → nought ≼ rate
        → IsWithin limit stored
        → IsFilled limit stored (refill limit (or_else stored limit) elapsed rate)
    refill-IsFilled limit elapsed rate none p q w = elim (Bool-cases (lt nought limit)) [
      | inl e ↦ inr (tt, (refill_bounds limit limit elapsed rate e (lt_irrefl limit) p q).1)
      | inr e ↦ inl e
    ]
    refill-IsFilled limit elapsed rate (some x) p q w = elim (Bool-cases (lt nought limit)) [
      | inl e ↦ inr (refill_bounds limit x elapsed rate e w p q)
      | inr e ↦ inl e
    ]

    -- If the arithmetic is ordered, the refill rates are not negative and no stored balance is
    -- above its limit, then in each dimension that is enforced time only adds: the computed
    -- balance is at least the stored one and at most the limit, also if the clock ran
    -- backwards.
    pub compute_bounds :
        (now : F) (key : String) (token_limit usd_limit tokens_rate usd_rate : F) (h : Hash F)
        → nought ≼ tokens_rate
        → nought ≼ usd_rate
        → IsWithin token_limit h.tokens_remaining
        → IsWithin usd_limit h.usd_remaining
        → let b = compute now key token_limit usd_limit tokens_rate usd_rate h in
          IsFilled token_limit h.tokens_remaining b.computed_tokens
          × IsFilled usd_limit h.usd_remaining b.computed_usd
    unfolding compute
    compute_bounds now key tl ul tr ur h pt pu wt wu =
        let elapsed = elapsed_since now (or_else h.last_refill_ts now) in
        let p = elapsed_since_nonneg now (or_else h.last_refill_ts now) in
        (
          refill-IsFilled tl elapsed tr h.tokens_remaining p pt wt,
          refill-IsFilled ul elapsed ur h.usd_remaining p pu wu,
        )
