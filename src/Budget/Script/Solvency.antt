-- ===== src/Budget/Script/Solvency.antt =====
-- What checkAndDecrement.lua stores for an admitted request is never an overdraft.
use budget_governor.Prelude.{◌≡◌, refl, ◌⊎◌, inl, inr, false, Option, some, String, arith}
use budget_governor.Prelude.Float.{Float, nought, ◌≼◌, IsOrdered}
use budget_governor.Budget.Script.Commit.{charged_hash}
use budget_governor.Budget.Script.{Hash, Store, Redis, Bucket, refill, compute}
use budget_governor.Budget.Script.Admission.{Covers}

-- What Lua's `tostring` does to a number: it keeps the order, and zero.
pub record IsPrinting {F : Type 0} ⦃d : Float F⦄ (r : Redis F) : Type 0 where
  pub tostring_mono : (x y : F) → x ≼ y → r.tostring x ≼ r.tostring y
  pub tostring_nought : r.tostring nought ≡ nought

module _ {F : Type 0} ⦃d : Float F⦄ where
  open d use {lt}

  -- A dimension is unlimited, or its stored balance is neither overdrawn nor above the limit, as the
  -- limit is printed.
  abbrev pub IsSolvent : Redis F → F → Option F → Type 0
  IsSolvent r limit stored =
      (lt nought limit ≡ false)
      ⊎ ((x : F) × (stored ≡ some x) × (nought ≼ x) × (x ≼ r.tostring limit))

  -- A balance is not above its limit, or the dimension is unlimited.
  abbrev pub IsCapped : F → F → Type 0
  IsCapped limit x = (lt nought limit ≡ false) ⊎ (x ≼ limit)

module _ {F : Type 0} ⦃d : Float F⦄ (laws : IsOrdered F) (r : Redis F)
    (printing : IsPrinting r) where
  open d use {sub, lt}
  open laws use {lt_irrefl, sub_nonneg, sub-le, le_trans}
  open printing use {tostring_mono, tostring_nought}

  refill-IsCapped :
      (limit remaining elapsed rate : F) → IsCapped limit (refill limit remaining elapsed rate)
  unfolding refill
  refill-IsCapped limit remaining elapsed rate = ground (arith, lt_irrefl limit)

  printed_nonneg : (x : F) → nought ≼ x → nought ≼ r.tostring x
  printed_nonneg x h = rw tostring_nought at (tostring_mono nought x h)

  sub-IsSolvent :
      (limit balance amount : F)
      → nought ≼ amount
      → IsCapped limit balance
      → (lt nought limit ≡ false) ⊎ (amount ≼ balance)
      → IsSolvent r limit (some (r.tostring (sub balance amount)))
  sub-IsSolvent limit balance amount p (inl e) c = inl e
  sub-IsSolvent limit balance amount p (inr k) (inl e) = inl e
  sub-IsSolvent limit balance amount p (inr k) (inr c) = inr (
    r.tostring (sub balance amount),
    refl,
    printed_nonneg _ (sub_nonneg balance amount c),
    tostring_mono _ _ (le_trans _ _ _ (sub-le balance amount p) k),
  )

  -- The buckets that phase 1 computes are capped, whatever was stored.
  pub compute-IsCapped :
      (now : F) (key : String) (token_limit usd_limit tokens_rate usd_rate : F) (h : Hash F)
      → let b = compute now key token_limit usd_limit tokens_rate usd_rate h in
        IsCapped token_limit b.computed_tokens × IsCapped usd_limit b.computed_usd
  unfolding compute
  compute-IsCapped now key tl ul tr ur h = (refill-IsCapped tl _ _ tr, refill-IsCapped ul _ _ ur)

  -- The hash that is stored for a bucket that had enough is solvent in both dimensions.
  pub charged_hash-IsSolvent :
      (tokens usd state_ttl now : F) (s : Store F) (b : Bucket F)
      → nought ≼ tokens
      → nought ≼ usd
      → IsCapped b.token_limit b.computed_tokens
      → IsCapped b.usd_limit b.computed_usd
      → Covers tokens usd b
      → let h = charged_hash r tokens usd state_ttl now s b in
        IsSolvent r b.token_limit h.tokens_remaining × IsSolvent r b.usd_limit h.usd_remaining
  charged_hash-IsSolvent tokens usd state_ttl now s b pt pu ct cu (kt, ku) = (
    sub-IsSolvent b.token_limit b.computed_tokens tokens pt ct kt,
    sub-IsSolvent b.usd_limit b.computed_usd usd pu cu ku,
  )
