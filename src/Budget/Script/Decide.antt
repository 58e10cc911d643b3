-- ===== src/Budget/Script/Decide.antt =====
-- Phases 2 and 3 of checkAndDecrement.lua together: all buckets are charged, or none.
use mathlib.Core.Path.{subst}
use budget_governor.Prelude.{
  ℕ, ◌≡◌, refl, ap, ◌⊎◌, inl, inr, Option, none, String, List, All, All-middle, Option-cases,
}
use budget_governor.Prelude.Int.{pos}
use budget_governor.Prelude.Float.{Float, nought, IsOrdered}
use budget_governor.Budget.Script.{Store, Redis, Bucket, Reply, phase2, decide, or_else}
use budget_governor.Budget.Script.Admission.{Covers, IsFirstShort, Verdict, phase2-Verdict}
use budget_governor.Budget.Script.Commit.{
  IsFresh, IsDistinct, IsWritten, phase3_fresh, phase3-IsWritten, IsBelow, IsOneOf, least,
  least-IsBelow, least-IsOneOf, phase3-least,
}

module _ {F : Type 0} ⦃d : Float F⦄ (tokens usd : F) where
  pub phase2-All :
      (start : ℕ) (bs : List (Bucket F))
      → All (Covers tokens usd) bs
      → phase2 tokens usd start bs ≡ none
  phase2-All start bs covered = elim (Option-cases (phase2 tokens usd start bs)) [
    | inl e ↦ e
    | inr ((i, b), e) ↦
        let (before, after, split, _, short, _) : IsFirstShort tokens usd start bs i b =
          subst (Verdict tokens usd start bs) e (phase2-Verdict tokens usd start bs) in
        absurd (short (All-middle _ before b after (subst (All (Covers tokens usd)) split covered)))
  ]

module _ {F : Type 0} ⦃d : Float F⦄ (r : Redis F) (tokens usd state_ttl now : F) where
  open d use {sub}

  -- Every bucket was charged, and nothing else was touched.
  abbrev pub IsCharged : List (Bucket F) → Store F → String → Reply F × Store F → Type 0
  IsCharged bs s other (out, s') =
      All (Covers tokens usd) bs
      × (out.flag ≡ pos 1)
      × IsWritten r tokens usd state_ttl now s bs s'
      × (s' other ≡ s other)

  -- Nothing was touched, and the first bucket that is short is reported with its balances.
  abbrev pub IsRefused : List (Bucket F) → Store F → Reply F × Store F → Type 0
  IsRefused bs s (out, s') =
      (i : ℕ) × (b : Bucket F) × IsFirstShort tokens usd 1 bs i b
      × (out ≡ record {
        flag = pos 0;
        index = pos i;
        tokens = b.computed_tokens;
        usd = b.computed_usd;
      })
      × (s' ≡ s)

  -- If the keys differ from each other and from some other key, either every bucket has enough
  -- of all that it limits, and then every bucket is charged and the other key is left alone; or
  -- the first bucket that is short is reported, and the store is as it was.
  pub decide_all_or_nothing :
      (bs : List (Bucket F)) (s : Store F) (other : String)
      → IsDistinct bs
      → IsFresh other bs
      → let result = decide r tokens usd state_ttl now bs s in
        IsCharged bs s other result ⊎ IsRefused bs s result
  unfolding decide
  decide_all_or_nothing bs s other distinct fresh =
      let verdict = phase2-Verdict tokens usd 1 bs in
      elim (Option-cases (phase2 tokens usd 1 bs)) [
        | inl e ↦ inl (
            rw (e, decide)
              (
                subst (Verdict tokens usd 1 bs) e verdict,
                refl,
                phase3-IsWritten r tokens usd state_ttl now bs _ s distinct,
                phase3_fresh r tokens usd state_ttl now other bs _ s fresh,
              ))
        | inr ((i, b), e) ↦
            inr (rw (e, decide) (i, b, subst (Verdict tokens usd 1 bs) e verdict, refl, refl))
      ]

  -- `x` is the least balance that remains where a limit is enforced, or zero where none is.
  abbrev pub IsMinimum : (Bucket F → F) → (Bucket F → F) → F → List (Bucket F) → Type 0
  IsMinimum limit left x bs =
      (m : Option F) × (x ≡ or_else m nought)
      × IsBelow limit left m bs
      × ((m ≡ none) ⊎ IsOneOf limit left m bs)

  -- If the arithmetic is ordered and every bucket has enough, the reply gives the least of the
  -- token balances that remain, and the least of the dollar balances: each is below every
  -- balance that is enforced, and it is one of them, or zero where none is enforced.
  pub decide_minima :
      IsOrdered F
      → (bs : List (Bucket F)) (s : Store F) → All (Covers tokens usd) bs
      → let out = (decide r tokens usd state_ttl now bs s).0 in
        IsMinimum (λ b. b.token_limit) (λ b. sub b.computed_tokens tokens) out.tokens bs
        × IsMinimum (λ b. b.usd_limit) (λ b. sub b.computed_usd usd) out.usd bs
  unfolding decide
  decide_minima laws bs s covered =
      let token_left : Bucket F → F = λ b. sub b.computed_tokens tokens in
      let usd_left : Bucket F → F = λ b. sub b.computed_usd usd in
      let (et, eu) =
        phase3-least r tokens usd state_ttl now bs (record { min_tokens = none; min_usd = none })
          s in
      rw (phase2-All tokens usd 1 bs covered, decide)
        (
          (
            least (λ b. b.token_limit) token_left none bs,
            ap (λ o. or_else o nought) et,
            least-IsBelow laws (λ b. b.token_limit) token_left bs none,
            least-IsOneOf laws (λ b. b.token_limit) token_left bs none,
          ),
          (
            least (λ b. b.usd_limit) usd_left none bs,
            ap (λ o. or_else o nought) eu,
            least-IsBelow laws (λ b. b.usd_limit) usd_left bs none,
            least-IsOneOf laws (λ b. b.usd_limit) usd_left bs none,
          ),
        )
