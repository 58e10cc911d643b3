-- ===== src/Budget/Enforcer/Marshal.antt =====
-- What `CheckAndDecrement` packs into KEYS and ARGV is what the script reads.
use mathlib.Core.List.{append_assoc}
use budget_governor.Prelude.{
  ℕ, All, ◌↔◌, str_eq, String, false, ◌+◌, ◌-◌, ◌*◌, ◌≤◌, ◌≡◌, refl, some, List, [], ◌∷◌, ◌++◌,
  ◌||◌, arith, length, length-append, get_elem?, get_elem?-append, if◌then◌else◌, Bool-cases, inl,
  inr,
}
use budget_governor.Prelude.Int.{ℤ, pos, negsuc}
use budget_governor.Prelude.Float.{Float, nought}
use budget_governor.Budget.Types.{BucketRef}
use budget_governor.Budget.Script.{
  Store, Redis, Reply, Bucket, argument, compute, phase1, decide, check, run, now_of,
}
use budget_governor.Budget.Script.Commit.{IsFresh, IsDistinct}
use budget_governor.Budget.Enforcer.{limit_args, arguments, keys_of}

argument-append :
    {F : Type 0} (front ys : List F) (n k : ℕ)
    → n ≡ length front + k + 1
    → argument (front ++ ys) n ≡ get_elem? ys k
argument-append front ys n k e =
    let e' : n - 1 ≡ length front + k = omega arith in rw e' (get_elem?-append front ys k)

module _ {F : Type 0} ⦃d : Float F⦄ where
  open d use {lt, of_int}

  -- The bucket of a ref, computed from its own limits.
  abbrev pub bucket_of : F → Store F → BucketRef F → Bucket F
  bucket_of now s b =
      compute now b.key (of_int b.limits.token_limit) b.limits.dollar_limit
        b.limits.refill_tokens_per_sec b.limits.refill_usd_per_sec (s b.key)

  unfoldable pub buckets : F → Store F → List (BucketRef F) → List (Bucket F)
  buckets now s [] = []
  buckets now s (b ∷ bs) = bucket_of now s b ∷ buckets now s bs

  pub All-buckets {κ} :
      (P : Bucket F → Type κ) (now : F) (s : Store F) (refs : List (BucketRef F))
      → All (λ b. P (bucket_of now s b)) refs ↔ All P (buckets now s refs)
  unfolding buckets
  All-buckets P now s [] = (λ h. h, λ h. h)
  All-buckets P now s (b ∷ bs) =
      let (to, back) = All-buckets P now s bs in (λ h. (h.0, to h.1), λ h. (h.0, back h.1))

  -- No ref has this key.
  abbrev pub IsFreshRef : String → List (BucketRef F) → Type 0
  IsFreshRef key = All λ b. (str_eq key b.key ≡ false) × (str_eq b.key key ≡ false)

  -- No two refs share a key.
  abbrev pub IsDistinctRefs : List (BucketRef F) → Type 0
  IsDistinctRefs [] = Unit
  IsDistinctRefs (b ∷ bs) = IsFreshRef b.key bs × IsDistinctRefs bs

  pub buckets-IsFresh :
      (key : String) (now : F) (s : Store F) (refs : List (BucketRef F))
      → IsFreshRef key refs
      → IsFresh key (buckets now s refs)
  unfolding buckets compute
  buckets-IsFresh key now s [] h = tt
  buckets-IsFresh key now s (b ∷ bs) h = (h.0, buckets-IsFresh key now s bs h.1)

  pub buckets-IsDistinct :
      (now : F) (s : Store F) (refs : List (BucketRef F))
      → IsDistinctRefs refs
      → IsDistinct (buckets now s refs)
  unfolding buckets compute
  buckets-IsDistinct now s [] h = tt
  buckets-IsDistinct now s (b ∷ bs) h =
      (buckets-IsFresh b.key now s bs h.0, buckets-IsDistinct now s bs h.1)

  phase1-limit_args :
      (now : F) (s : Store F) (refs : List (BucketRef F)) (front : List F) (i : ℕ)
      → length front ≡ 3 + 4 * (i - 1)
      → 1 ≤ i
      → phase1 s now (front ++ limit_args refs) i (keys_of refs) ≡ some (buckets now s refs)
  unfolding phase1 limit_args keys_of buckets
  phase1-limit_args now s [] front i e h = refl
  phase1-limit_args now s (b ∷ bs) front i e h =
      let own : List F =
        of_int b.limits.token_limit
        ∷ b.limits.dollar_limit
        ∷ b.limits.refill_tokens_per_sec
        ∷ b.limits.refill_usd_per_sec
        ∷ [] in
      let all = own ++ limit_args bs in
      let base = 3 + 4 * (i - 1) in
      let rest : phase1 s now (front ++ all) (i + 1) (keys_of bs) ≡ some (buckets now s bs) =
        rw (← append_assoc front own (limit_args bs)) (
          phase1-limit_args now s bs (front ++ own) (i + 1) (omega (arith, length-append front own))
            (omega arith)) in
      rw (
        argument-append front all (base + 1) 0 (omega arith),
        argument-append front all (base + 2) 1 (omega arith),
        argument-append front all (base + 3) 2 (omega arith),
        argument-append front all (base + 4) 3 (omega arith),
        rest,
      )

  module _ (r : Redis F) where
    -- The script, told in terms of refs.
    unfoldable pub reference : ℕ → ℕ → List (BucketRef F) → ℤ → F → ℤ → Store F → Reply F × Store F
    reference sec usec refs tokens usd state_ttl s =
        if lt (of_int tokens) nought || lt usd nought
        then (record { flag = pos 0; index = negsuc 0; tokens = nought; usd = nought }, s)
        else (let now = now_of sec usec in
            decide r (of_int tokens) usd (of_int state_ttl) now (buckets now s refs) s)

    -- The script never raises an error on what `CheckAndDecrement` sends, and reads each ref's own
    -- limits, whatever the number of refs.
    pub run-arguments :
        (sec usec : ℕ) (refs : List (BucketRef F)) (tokens : ℤ) (usd : F) (state_ttl : ℤ)
        (s : Store F)
        → run r sec usec (keys_of refs) (arguments tokens usd state_ttl refs) s
          ≡ some (reference sec usec refs tokens usd state_ttl s)
    unfolding run check arguments reference
    run-arguments sec usec refs tokens usd ttl s =
        let now = now_of sec usec in
        let front : List F = of_int tokens ∷ usd ∷ of_int ttl ∷ [] in
        let e : phase1 s now (of_int tokens ∷ usd ∷ of_int ttl ∷ limit_args refs) 1 (keys_of refs)
            ≡ some (buckets now s refs) =
          phase1-limit_args now s refs front 1 (omega arith) (omega arith) in
        elim (Bool-cases (lt (of_int tokens) nought || lt usd nought)) [
          | inl negative ↦ rw negative
          | inr fine ↦ rw (fine, e)
        ]
