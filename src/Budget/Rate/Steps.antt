-- ===== src/Budget/Rate/Steps.antt =====
-- Each command keeps the account of one token bucket of gateway/internal/budget.
use mathlib.Core.Option.{some-injective}
use budget_governor.Prelude.{
  ℕ, ◌≡◌, sym, ◌∙◌, true, some, String, List, ◌∷◌, ◌++◌, inl, inr, All-middle,
}
use mathlib.Core.Path.{subst}
use budget_governor.Prelude.Int.{ℤ, pos, ◌≤ℤ◌}
use budget_governor.Prelude.Float.{Float, nought, ◌≼◌, IsOrdered}
use budget_governor.Budget.Types.{Limits, BucketRef}
use budget_governor.Budget.Script.{Store, Redis, Reply, run, now_of, or_else}
use budget_governor.Budget.Script.Solvency.{IsPrinting}
use budget_governor.Budget.Enforcer.{keys_of, arguments}
use budget_governor.Budget.Enforcer.Overdraft.{IsRefSolvent, admitted-IsRefSolvent}
use budget_governor.Budget.Enforcer.Marshal.{IsDistinctRefs, run-arguments}
use budget_governor.Budget.Rate.{IsClose, Account, Charge, charge}
use budget_governor.Budget.Rate.Runs.{Ran, reference-Ran}
use budget_governor.Budget.Rate.Rounding.{units-nonneg}
use budget_governor.Budget.Rate.Credit.{IsPaid}

module _ {F : Type 0} ⦃d : Float F⦄ {r : Redis F} (close : IsClose r) (laws : IsOrdered F)
    (first : F) where
  open d use {lt, of_int}
  open close use {units}

  -- The account of the bucket is in order.
  abbrev pub IsInOrder : String → Limits F → Account F → Type 0
  IsInOrder key limits a = IsPaid close limits first a.clock a.spent a.writes (a.store key)

  run-Ran :
      (sec usec : ℕ) (refs : List (BucketRef F)) (tokens : ℤ) (usd : F) (ttl : ℤ) (s s' : Store F)
      (out : Reply F)
      → IsDistinctRefs refs
      → run r sec usec (keys_of refs) (arguments tokens usd ttl refs) s ≡ some (out, s')
      → Ran r (now_of sec usec) refs tokens usd ttl s (out, s')
  run-Ran sec usec refs tokens usd ttl s s' out distinct h =
      let e = some-injective _ _ (sym (run-arguments r sec usec refs tokens usd ttl s) ∙ h) in
      subst (Ran r (now_of sec usec) refs tokens usd ttl s) e
        (reference-Ran r sec usec refs tokens usd ttl s distinct)

  solvent-nonneg :
      (s : Store F) (b : BucketRef F)
      → lt nought (of_int b.limits.token_limit) ≡ true
      → IsRefSolvent r s b
      → pos 0 ≤ℤ units (or_else (s b.key).tokens_remaining (of_int b.limits.token_limit))
  solvent-nonneg s b p (inl unlimited, _) = cc (p, unlimited)
  solvent-nonneg s b p (inr (x, e, nonneg, _), _) = rw e (units-nonneg close x nonneg)

  module _ (key : String) (limits : Limits F) (p : lt nought (of_int limits.token_limit) ≡ true)
      (q : nought ≼ limits.refill_tokens_per_sec) where
    -- A statement about a ref's own key and limits is one about those of the bucket.
    own :
        (P : String → Limits F → Type 0) (b : BucketRef F)
        → b.key ≡ key
        → b.limits ≡ limits
        → P b.key b.limits
        → P key limits
    own P b e e' h = subst (λ k. P k limits) e (subst (P b.key) e' h)

    its :
        (P : String → Limits F → Type 0) (b : BucketRef F)
        → b.key ≡ key
        → b.limits ≡ limits
        → P key limits
        → P b.key b.limits
    its P b e e' h = subst (λ l. P b.key l) (sym e') (subst (λ k. P k limits) (sym e) h)

    -- A charge leaves no debt.
    pub Charge-nonneg :
        IsPrinting r
        → {a b : Account F} → Charge r close key limits a b
        → pos 0 ≤ℤ units (or_else (b.store key).tokens_remaining (of_int limits.token_limit))
    Charge-nonneg printing {a}
          (charge sec usec before b after tokens usd ttl out s e e' distinct h ok) =
        let now = now_of sec usec in
        elim (run-Ran sec usec (before ++ b ∷ after) tokens usd ttl a.store s out distinct h) [
          | inl (_, pt, pu, covered, written, _) ↦
              own (λ k l. pos 0 ≤ℤ units (or_else (s k).tokens_remaining (of_int l.token_limit))) b
                e e'
                (solvent-nonneg s b (its (λ _ l. lt nought (of_int l.token_limit) ≡ true) b e e' p)
                  (admitted-IsRefSolvent laws r printing tokens usd now ttl a.store s b pt pu
                    (All-middle _ before b after covered) (All-middle _ before b after written)))
          | inr (refused, _) ↦ cc (refused, ok)
        ]
