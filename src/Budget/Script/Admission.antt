-- ===== src/Budget/Script/Admission.antt =====
-- Phase 2 of checkAndDecrement.lua: which requests are admitted, and which bucket is reported.
use budget_governor.Prelude.{
  ℕ, ◌+◌, ◌≡◌, refl, ◌⊎◌, inl, inr, true, false, Option, none, some, List, [], ◌∷◌, ◌++◌, arith,
  Bool-cases, All, length, ap,
}
use budget_governor.Prelude.Float.{Float, nought, ◌≼◌}
use budget_governor.Budget.Script.{Bucket, is_short, phase2}

module _ {F : Type 0} ⦃d : Float F⦄ (tokens usd : F) where
  open d use {lt}

  -- A bucket has enough of all that it limits.
  abbrev pub Covers : Bucket F → Type 0
  Covers b =
      ((lt nought b.token_limit ≡ false) ⊎ (tokens ≼ b.computed_tokens))
      × ((lt nought b.usd_limit ≡ false) ⊎ (usd ≼ b.computed_usd))

  -- Number i, counted from `start`, is the first bucket that does not have enough.
  abbrev pub IsFirstShort : ℕ → List (Bucket F) → ℕ → Bucket F → Type 0
  IsFirstShort start bs i b =
      (before : List (Bucket F)) × (after : List (Bucket F)) × (bs ≡ before ++ b ∷ after)
      × All Covers before
      × (¬ Covers b)
      × (i ≡ start + length before)

  -- What phase 2 finds.
  abbrev pub Verdict : ℕ → List (Bucket F) → Option (ℕ × Bucket F) → Type 0
  Verdict start bs none = All Covers bs
  Verdict start bs (some (i, b)) = IsFirstShort start bs i b

  pub is_short-Covers : (b : Bucket F) → is_short tokens usd b ≡ false → Covers b
  unfolding is_short
  is_short-Covers b h = ground arith

  pub is_short-not-Covers : (b : Bucket F) → is_short tokens usd b ≡ true → ¬ Covers b
  unfolding is_short
  is_short-not-Covers b h = ground arith

  Verdict-cons :
      (start : ℕ) (b : Bucket F) (bs : List (Bucket F)) (o : Option (ℕ × Bucket F))
      → Covers b
      → Verdict (start + 1) bs o
      → Verdict start (b ∷ bs) o
  Verdict-cons start b bs none c v = (c, v)
  Verdict-cons start b bs (some (i, x)) c (before, after, e, covered, short, n) =
      (b ∷ before, after, ap (◌∷◌ b) e, (c, covered), short, omega arith)

  pub phase2-Verdict :
      (start : ℕ) (bs : List (Bucket F)) → Verdict start bs (phase2 tokens usd start bs)
  unfolding phase2
  phase2-Verdict start [] = tt
  phase2-Verdict start (b ∷ bs) = elim (Bool-cases (is_short tokens usd b)) [
    | inl e ↦ rw e ([], bs, refl, tt, is_short-not-Covers b e, omega arith)
    | inr e ↦ rw e (Verdict-cons start b bs _ (is_short-Covers b e) (phase2-Verdict (start + 1) bs))
  ]
