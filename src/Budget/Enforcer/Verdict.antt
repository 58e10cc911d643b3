-- ===== src/Budget/Enforcer/Verdict.antt =====
-- `CheckAndDecrement` from end to end: what its decision says of the buckets and of the store.
use budget_governor.Prelude.{
  ℕ, ◌+◌, suc, ◌≡◌, refl, ap, inl, inr, Option, none, some, List, [], ◌∷◌, ◌++◌, arith, All, length,
  Bool-cases,
}
use budget_governor.Prelude.Int.{ℤ, pos}
use budget_governor.Prelude.Float.{Float}
use budget_governor.Budget.Types.{BucketRef, Decision}
use budget_governor.Budget.Script.{Store, Redis, Bucket, phase2, is_short}
use budget_governor.Budget.Script.Admission.{Covers, is_short-Covers, is_short-not-Covers}
use budget_governor.Prelude.{get_elem?, true, false, ◌∙◌}
use budget_governor.Budget.Types.{scope_reason}
use budget_governor.Budget.Enforcer.{
  explain, explain_ref, is_once, Weather, System, decided, keys_of, arguments, convert, decode,
  check_and_decrement,
}
use budget_governor.Budget.Enforcer.Marshal.{bucket_of, buckets, reference, run-arguments}
use budget_governor.Budget.Enforcer.Eval.{eval_at_most_once}

module _ {F : Type 0} ⦃d : Float F⦄ (tokens usd : F) (now : F) (s : Store F) where
  -- The bucket of a ref has enough.
  abbrev pub RefCovers : BucketRef F → Type 0
  RefCovers b = Covers tokens usd (bucket_of now s b)

  -- The ref `b`, at index `i`, is the first whose bucket does not have enough.
  abbrev pub IsFirstShortRef : List (BucketRef F) → ℕ → BucketRef F → Type 0
  IsFirstShortRef refs i b =
      (before : List (BucketRef F)) × (after : List (BucketRef F)) × (refs ≡ before ++ b ∷ after)
      × All RefCovers before
      × (¬ RefCovers b)
      × (i ≡ length before)

  abbrev pub Found : ℕ → List (BucketRef F) → Option (ℕ × Bucket F) → Type 0
  Found start refs none = All RefCovers refs
  Found start refs (some (n, x)) =
      (i : ℕ) × (b : BucketRef F) × IsFirstShortRef refs i b
      × (n ≡ start + i)
      × (x ≡ bucket_of now s b)

  Found-cons :
      (start : ℕ) (b : BucketRef F) (refs : List (BucketRef F)) (o : Option (ℕ × Bucket F))
      → RefCovers b
      → Found (start + 1) refs o
      → Found start (b ∷ refs) o
  Found-cons start b refs none c v = (c, v)
  Found-cons start b refs (some (n, x)) c (i, b', (before, after, e, covered, short, k), m, eq) = (
    suc i,
    b',
    (b ∷ before, after, ap (◌∷◌ b) e, (c, covered), short, omega arith),
    omega arith,
    eq,
  )

  pub phase2-Found :
      (start : ℕ) (refs : List (BucketRef F))
      → Found start refs (phase2 tokens usd start (buckets now s refs))
  unfolding phase2 buckets
  phase2-Found start [] = tt
  phase2-Found start (b ∷ refs) = elim (Bool-cases (is_short tokens usd (bucket_of now s b))) [
    | inl e ↦
        rw e
          (0, b, ([], refs, refl, tt, is_short-not-Covers tokens usd _ e, refl), omega arith, refl)
    | inr e ↦
        rw e (
          Found-cons start b refs _ (is_short-Covers tokens usd _ e)
            (phase2-Found (start + 1) refs))
  ]

module _ {F : Type 0} ⦃d : Float F⦄ (r : Redis F) where
  -- A decision comes from exactly one run of the script, on the limits of the refs.
  pub check_and_decrement-decided :
      (w : Weather) (refs : List (BucketRef F)) (tokens : ℤ) (usd : F) (y : System F)
      (dec : Decision F)
      → is_once w.evalsha ≡ true
      → is_once w.eval ≡ true
      → (check_and_decrement r w refs tokens usd y).0 ≡ decided dec
      → let y' = (check_and_decrement r w refs tokens usd y).1 in
        let (out, s') = reference r w.sec w.usec refs tokens usd y.state_ttl y.store in
        (y'.runs ≡ suc y.runs) × (y'.store ≡ s') × (decode refs (convert out) ≡ decided dec)
  unfolding check_and_decrement
  check_and_decrement-decided w [] tokens usd y dec o o' h = cc
  check_and_decrement-decided w (b ∷ bs) tokens usd y dec o o' h =
      let refs = b ∷ bs in
      let (out, s') = reference r w.sec w.usec refs tokens usd y.state_ttl y.store in
      ground (
        arith,
        eval_at_most_once r w (keys_of refs) (arguments tokens usd y.state_ttl refs) y out s' o o'
            (run-arguments r w.sec w.usec refs tokens usd y.state_ttl y.store),
      )

-- The decision behind a reply.
module _ {F : Type 0} ⦃d : Float F⦄ where
  open d use {of_int, trunc}

  get_elem?-middle :
      (before : List (BucketRef F)) (b : BucketRef F) (after : List (BucketRef F))
      → get_elem? (before ++ b ∷ after) (length before) ≡ some b
  get_elem?-middle [] b after = refl
  get_elem?-middle (x ∷ before) b after = get_elem?-middle before b after

  pub explain-first :
      (refs before : List (BucketRef F)) (b : BucketRef F) (after : List (BucketRef F)) (n : ℕ)
      → refs ≡ before ++ b ∷ after
      → n ≡ 1 + length before
      → explain refs (pos n) ≡ (some b.scope, scope_reason b.scope)
  unfolding explain
  explain-first refs before b after n e m =
      let m' : n ≡ suc (length before) = omega arith in
      ap (λ k. explain refs (pos k)) m'
      ∙ ap (λ l. explain l (pos (suc (length before)))) e
      ∙ ap explain_ref (get_elem?-middle before b after)

  -- The decision that is read from a refusal with this index.
  abbrev pub refusal : List (BucketRef F) → ℤ → F → F → Decision F
  refusal refs index tokens usd =
      let (scope, reason) = explain refs index in
      record {
        allowed = false;
        reason = reason;
        failed_scope = scope;
        remaining_tokens = of_int (trunc tokens);
        remaining_usd = of_int (trunc usd);
      }
