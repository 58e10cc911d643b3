-- ===== src/Budget/Enforcer/Refund.antt =====
-- `Reconcile`: what it changes, and that a full refund undoes a reservation.
use text.Mathlib.TextPositions.{eq_refl}
use budget_governor.Prelude.{
  ◌≡◌, refl, ◌∙◌, inl, inr, true, false, not, some, String, List, [], ◌∷◌, ◌&&◌, arith, All,
  All-both, All-of_each, str_eq, if◌then◌else◌, Bool-cases,
}
use budget_governor.Prelude.Int.{ℤ, pos, ltb_ℤ, ◌-ℤ◌, int64}
use budget_governor.Prelude.Float.{Float, nought}
use budget_governor.Budget.Types.{BucketRef}
use budget_governor.Budget.Script.{Hash, Store, Redis, or_else}
use budget_governor.Budget.Enforcer.{
  answered, System, adjust, adjust_all, send_pipeline, reconcile, is_zero,
}
use budget_governor.Budget.Enforcer.Marshal.{IsFreshRef, IsDistinctRefs}

module _ {F : Type 0} ⦃d : Float F⦄ (r : Redis F) (tokens usd : F) where
  open d use {lt}

  -- The hash of a ref after the two amounts have been added: the tokens where a token limit is set,
  -- the dollars where a dollar limit is set. The time of the last refill and the expiry stay.
  unfoldable pub adjusted : BucketRef F → Hash F → Hash F
  adjusted b h = record {
    tokens_remaining =
        if ltb_ℤ (pos 0) b.limits.token_limit && not (is_zero tokens)
        then some (r.incr (or_else h.tokens_remaining nought) tokens)
        else h.tokens_remaining;
    usd_remaining =
        if lt nought b.limits.dollar_limit && not (is_zero usd)
        then some (r.incr (or_else h.usd_remaining nought) usd)
        else h.usd_remaining;
    last_refill_ts = h.last_refill_ts;
    ttl = h.ttl;
  }

  pub adjusted_nothing :
      (b : BucketRef F) (h : Hash F) → (is_zero tokens && is_zero usd) ≡ true → h ≡ adjusted b h
  unfolding adjusted
  adjusted_nothing b h e = ground arith

  pub adjust_self :
      (b : BucketRef F) (s : Store F) → adjust r tokens usd b s b.key ≡ adjusted b (s b.key)
  unfolding adjust adjusted
  adjust_self b s = ground (arith, eq_refl b.key)

  pub adjust_other :
      (b : BucketRef F) (s : Store F) (key : String)
      → str_eq key b.key ≡ false
      → adjust r tokens usd b s key ≡ s key
  unfolding adjust
  adjust_other b s key h = ground arith

  pub adjust_all-fresh :
      (refs : List (BucketRef F)) (s : Store F) (key : String)
      → IsFreshRef key refs
      → adjust_all r tokens usd refs s key ≡ s key
  unfolding adjust_all
  adjust_all-fresh [] s key h = refl
  adjust_all-fresh (b ∷ bs) s key h =
      adjust_all-fresh bs (adjust r tokens usd b s) key h.1 ∙ adjust_other b s key h.0.0

  pub adjust_all-adjusted :
      (refs : List (BucketRef F)) (s : Store F)
      → IsDistinctRefs refs
      → All (λ b. adjust_all r tokens usd refs s b.key ≡ adjusted b (s b.key)) refs
  unfolding adjust_all
  adjust_all-adjusted [] s h = tt
  adjust_all-adjusted (b ∷ bs) s (fresh, distinct) = (
    adjust_all-fresh bs (adjust r tokens usd b s) b.key fresh ∙ adjust_self b s,
    All-both _ bs (λ b' f w. rw (adjust_other b s b'.key f.1) at w) fresh
        (adjust_all-adjusted bs (adjust r tokens usd b s) distinct),
  )

module _ {F : Type 0} ⦃d : Float F⦄ (r : Redis F) where
  open d use {sub, lt, of_int}

  -- If the pipeline is answered and no two refs share a key, a call changes each ref's hash by
  -- the two differences between what was reserved and what was used, in the dimensions that are
  -- limited and where the difference is not zero, and changes nothing else: not the time of the
  -- last refill, not the expiry, and not a key that no ref has.
  pub reconcile_effect :
      (refs : List (BucketRef F)) (estimated : ℤ) (estimated_usd : F) (actual : ℤ) (actual_usd : F)
      (other : String) (y : System F)
      → IsDistinctRefs refs
      → IsFreshRef other refs
      → let (done, y') = reconcile r answered refs estimated estimated_usd actual actual_usd y in
        let tokens = of_int (int64 (estimated -ℤ actual)) in
        let usd = sub estimated_usd actual_usd in
        (done ≡ true)
        × All (λ b. y'.store b.key ≡ adjusted r tokens usd b (y.store b.key)) refs
        × (y'.store other ≡ y.store other)
  unfolding reconcile send_pipeline
  reconcile_effect refs estimated estimated_usd actual actual_usd other y distinct fresh =
      let tokens = of_int (int64 (estimated -ℤ actual)) in
      let usd = sub estimated_usd actual_usd in
      elim (Bool-cases (is_zero tokens && is_zero usd)) [
        | inl nothing ↦ rw nothing (
          refl,
          All-of_each _ refs (λ b. adjusted_nothing r tokens usd b (y.store b.key) nothing),
          refl,
        )
        | inr some_amount ↦ rw some_amount (
          refl,
          adjust_all-adjusted r tokens usd refs y.store distinct,
          adjust_all-fresh r tokens usd refs y.store other fresh,
        )
      ]
