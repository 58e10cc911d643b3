-- ===== src/Budget/Enforcer/Overdraft.antt =====
-- No call of `CheckAndDecrement` that is allowed overdraws a bucket.
use mathlib.Core.Bool.{false≢true}
use budget_governor.Prelude.{◌≡◌, sym, ◌∙◌, true, List, inl, inr, All, All-both}
use budget_governor.Prelude.Int.{ℤ}
use budget_governor.Prelude.Float.{Float, IsOrdered, nought, ◌≼◌}
use budget_governor.Budget.Types.{BucketRef, Decision}
use budget_governor.Budget.Script.Commit.{charged_hash}
use budget_governor.Budget.Script.{Store, Redis, compute, now_of}
use budget_governor.Budget.Script.Solvency.{
  IsPrinting, IsSolvent, compute-IsCapped, charged_hash-IsSolvent,
}
use budget_governor.Budget.Enforcer.{is_once, Weather, System, decided, check_and_decrement}
use budget_governor.Budget.Enforcer.Marshal.{bucket_of, IsDistinctRefs}
use budget_governor.Budget.Enforcer.Verdict.{RefCovers}
use budget_governor.Budget.Enforcer.Explained.{check_and_decrement-cases}

module _ {F : Type 0} ⦃d : Float F⦄ where
  open d use {of_int}

  -- The stored balances of a ref are within what it limits.
  abbrev pub IsRefSolvent : Redis F → Store F → BucketRef F → Type 0
  IsRefSolvent r s b =
      IsSolvent r (of_int b.limits.token_limit) (s b.key).tokens_remaining
      × IsSolvent r b.limits.dollar_limit (s b.key).usd_remaining

module _ {F : Type 0} ⦃d : Float F⦄ (laws : IsOrdered F) (r : Redis F)
    (printing : IsPrinting r) where
  open d use {of_int}

  -- A bucket that is charged for a request which it covers is solvent behind it.
  pub admitted-IsRefSolvent :
      (tokens : ℤ) (usd : F) (now : F) (ttl : ℤ) (s s' : Store F) (b : BucketRef F)
      → nought ≼ of_int tokens
      → nought ≼ usd
      → RefCovers (of_int tokens) usd now s b
      → s' b.key ≡ charged_hash r (of_int tokens) usd (of_int ttl) now s (bucket_of now s b)
      → IsRefSolvent r s' b
  unfolding compute
  admitted-IsRefSolvent tokens usd now ttl s s' b p q covered e =
      let (ct, cu) =
        compute-IsCapped laws r printing now b.key (of_int b.limits.token_limit)
          b.limits.dollar_limit b.limits.refill_tokens_per_sec b.limits.refill_usd_per_sec
          (s b.key) in
      rw e (
        charged_hash-IsSolvent laws r printing (of_int tokens) usd (of_int ttl) now s
          (bucket_of now s b) p q ct cu covered)

  -- If the arithmetic is ordered and printing keeps the order and zero, and no answer of
  -- Redis is lost and asked for again, then after a call that
  -- is allowed on refs with different keys, whatever was stored before, each balance that is
  -- enforced is at least zero and at most the limit, as the limit is printed.
  pub check_and_decrement-IsRefSolvent :
      (w : Weather) (refs : List (BucketRef F)) (tokens : ℤ) (usd : F) (y : System F)
      (dec : Decision F)
      → IsDistinctRefs refs
      → is_once w.evalsha ≡ true
      → is_once w.eval ≡ true
      → (check_and_decrement r w refs tokens usd y).0 ≡ decided dec
      → dec.allowed ≡ true
      → All (IsRefSolvent r (check_and_decrement r w refs tokens usd y).1.store) refs
  check_and_decrement-IsRefSolvent w refs tokens usd y dec distinct o o' h ok =
      let now = now_of w.sec w.usec in
      let s' = (check_and_decrement r w refs tokens usd y).1.store in
      elim (check_and_decrement-cases r tokens usd w refs y dec distinct o o' h) [
        | inl (_, p, q, covered, written, _) ↦
            All-both _ refs
              (λ b c e. admitted-IsRefSolvent tokens usd now y.state_ttl y.store s' b p q c e)
              covered written
        | inr (inl (_, _, _, no_go, _, _, _)) ↦ absurd (false≢true (sym no_go ∙ ok))
        | inr (inr (_, no_go, _, _, _)) ↦ absurd (false≢true (sym no_go ∙ ok))
      ]
