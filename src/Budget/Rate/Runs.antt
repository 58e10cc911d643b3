-- ===== src/Budget/Rate/Runs.antt =====
-- What one run of checkAndDecrement.lua does to the buckets of a list of refs.
use mathlib.Core.Path.{subst}
use budget_governor.Prelude.{
  ℕ, ◌≡◌, refl, ◌⊎◌, inl, inr, String, List, ◌||◌, All, arith, Option-cases, Bool-cases,
}
use budget_governor.Prelude.Int.{ℤ, pos}
use budget_governor.Prelude.Float.{Float, nought, ◌≼◌}
use budget_governor.Budget.Types.{BucketRef}
use budget_governor.Budget.Script.{Store, Redis, Reply, compute, phase2, decide, now_of}
use budget_governor.Budget.Script.Admission.{Verdict, phase2-Verdict}
use budget_governor.Budget.Script.Commit.{charged_hash, phase3_fresh, phase3-IsWritten}
use budget_governor.Budget.Enforcer.Verdict.{RefCovers}
use budget_governor.Budget.Enforcer.Marshal.{
  bucket_of, buckets, reference, All-buckets, IsFreshRef, IsDistinctRefs, buckets-IsFresh,
  buckets-IsDistinct,
}

module _ {F : Type 0} ⦃d : Float F⦄ (r : Redis F) where
  open d use {of_int, lt}

  -- Every bucket has enough and is charged, and no other key is touched; or nothing is written.
  abbrev pub Ran : F → List (BucketRef F) → ℤ → F → ℤ → Store F → Reply F × Store F → Type 0
  Ran now refs tokens usd ttl s (out, s') =
      ((out.flag ≡ pos 1)
        × (nought ≼ of_int tokens)
        × (nought ≼ usd)
        × All (RefCovers (of_int tokens) usd now s) refs
        × All
            (λ b.
              s' b.key ≡ charged_hash r (of_int tokens) usd (of_int ttl) now s (bucket_of now s b))
            refs
        × ((key : String) → IsFreshRef key refs → s' key ≡ s key))
      ⊎ ((out.flag ≡ pos 0) × (s' ≡ s))

  pub reference-Ran :
      (sec usec : ℕ) (refs : List (BucketRef F)) (tokens : ℤ) (usd : F) (ttl : ℤ) (s : Store F)
      → IsDistinctRefs refs
      → Ran (now_of sec usec) refs tokens usd ttl s (reference r sec usec refs tokens usd ttl s)
  unfolding reference decide compute
  reference-Ran sec usec refs tokens usd ttl s distinct =
      let now = now_of sec usec in
      let bs = buckets now s refs in
      elim (Bool-cases (lt (of_int tokens) nought || lt usd nought)) [
        | inl negative ↦ rw (negative, reference) (inr (refl, refl))
        | inr fine ↦ elim (Option-cases (phase2 (of_int tokens) usd 1 bs)) [
          | inl e ↦
              rw (fine, e, reference, decide)
                (inl (
                  refl,
                  ground arith,
                  ground arith,
                  (All-buckets _ now s refs).1 (
                      subst (Verdict (of_int tokens) usd 1 bs) e
                        (phase2-Verdict (of_int tokens) usd 1 bs)),
                  (All-buckets _ now s refs).1 (
                      phase3-IsWritten r (of_int tokens) usd (of_int ttl) now bs _ s
                        (buckets-IsDistinct now s refs distinct)),
                  λ key fresh.
                      phase3_fresh r (of_int tokens) usd (of_int ttl) now key bs _ s
                        (buckets-IsFresh key now s refs fresh),
                ))
          | inr (x, e) ↦ rw (fine, e, reference, decide) (inr (refl, refl))
        ]
      ]
