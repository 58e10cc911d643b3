-- ===== src/Budget/Enforcer/Explained.antt =====
-- `CheckAndDecrement` from end to end: each decision tells what was done to the store, and why.
use mathlib.Core.Path.{subst}
use budget_governor.Prelude.{
  ℕ, ◌+◌, ◌≡◌, refl, sym, ap, ◌⊎◌, inl, inr, true, false, none, some, String, List, ◌||◌, arith,
  All, Option-cases, Bool-cases,
}
use budget_governor.Prelude.Int.{ℤ, pos, negsuc}
use budget_governor.Prelude.Float.{Float, nought, ◌≼◌}
use budget_governor.Budget.Types.{invalid_request, scope_reason, BucketRef, Decision}
use budget_governor.Budget.Script.{Store, Redis, Minima, compute, phase2, phase3, decide, now_of}
use budget_governor.Budget.Script.Commit.{charged_hash, phase3_fresh, phase3-IsWritten}
use budget_governor.Budget.Enforcer.{
  is_once, Weather, System, Outcome, decided, convert, decode, explain, check_and_decrement,
}
use budget_governor.Budget.Enforcer.Marshal.{
  bucket_of, buckets, reference, All-buckets, IsFreshRef, IsDistinctRefs, buckets-IsFresh,
  buckets-IsDistinct,
}
use budget_governor.Budget.Enforcer.Verdict.{
  RefCovers, IsFirstShortRef, Found, phase2-Found, check_and_decrement-decided, explain-first,
  refusal,
}

module _ {F : Type 0} ⦃d : Float F⦄ (r : Redis F) (tokens : ℤ) (usd : F) where
  open d use {of_int, lt}

  -- Each bucket had enough and each was charged; `frame` tells what was left alone.
  abbrev pub IsAdmitted :
      (Store F → Type 0) → F → ℤ → List (BucketRef F) → Store F → Decision F → Store F → Type 0
  IsAdmitted frame now ttl refs s dec s' =
      (dec.allowed ≡ true)
      × (nought ≼ of_int tokens)
      × (nought ≼ usd)
      × All (RefCovers (of_int tokens) usd now s) refs
      × All
          (λ b.
            s' b.key ≡ charged_hash r (of_int tokens) usd (of_int ttl) now s (bucket_of now s b))
          refs
      × frame s'

  -- Nothing was written, and the reason names the scope of the first ref that is short.
  abbrev pub IsOverBudget : F → List (BucketRef F) → Store F → Decision F → Store F → Type 0
  IsOverBudget now refs s dec s' =
      (i : ℕ) × (b : BucketRef F) × IsFirstShortRef (of_int tokens) usd now s refs i b
      × (dec.allowed ≡ false)
      × (dec.failed_scope ≡ some b.scope)
      × (dec.reason ≡ scope_reason b.scope)
      × (s' ≡ s)

  -- Nothing was written, since an amount is negative.
  abbrev pub IsInvalid : Store F → Decision F → Store F → Type 0
  IsInvalid s dec s' =
      (lt (of_int tokens) nought || lt usd nought ≡ true)
      × (dec.allowed ≡ false)
      × (dec.failed_scope ≡ none)
      × (dec.reason ≡ invalid_request)
      × (s' ≡ s)

  abbrev pub IsExplained :
      (Store F → Type 0) → F → ℤ → List (BucketRef F) → Store F → Decision F → Store F → Type 0
  IsExplained frame now ttl refs s dec s' =
      IsAdmitted frame now ttl refs s dec s' ⊎ (IsOverBudget now refs s dec s' ⊎ IsInvalid s dec s')

  abbrev decision_or : Decision F → Outcome F → Decision F
  decision_or d (decided dec) = dec
  decision_or d _ = d

  of_refusal :
      (refs : List (BucketRef F)) (index : ℤ) (t u : F) (dec : Decision F)
      → decode refs (convert (record { flag = pos 0; index = index; tokens = t; usd = u }))
        ≡ decided dec
      → refusal refs index t u ≡ dec
  unfolding decode convert
  of_refusal refs index t u dec h = ap (decision_or dec) h

  refused-IsInvalid :
      (refs : List (BucketRef F)) (s : Store F) (dec : Decision F)
      → (lt (of_int tokens) nought || lt usd nought) ≡ true
      → refusal refs (negsuc 0) nought nought ≡ dec
      → IsInvalid s dec s
  unfolding explain
  refused-IsInvalid refs s dec negative e =
      subst (λ x. IsInvalid s x s) e (negative, refl, refl, refl, refl)

  refused-IsOverBudget :
      (now : F) (refs : List (BucketRef F)) (s : Store F) (dec : Decision F) (n : ℕ) (i : ℕ)
      (b : BucketRef F) (t u : F)
      → IsFirstShortRef (of_int tokens) usd now s refs i b
      → n ≡ 1 + i
      → refusal refs (pos n) t u ≡ dec
      → IsOverBudget now refs s dec s
  refused-IsOverBudget now refs s dec n i b t u (before, after, split, covered, short, k) m e =
      let found = explain-first refs before b after n split (omega arith) in
      subst (λ x. IsOverBudget now refs s x s) e
        (
          i,
          b,
          (before, after, split, covered, short, k),
          refl,
          ap (λ p. p.0) found,
          ap (λ p. p.1) found,
          refl,
        )

  -- The store after phase 3.
  abbrev charged : F → ℤ → List (BucketRef F) → Store F → Minima F → Store F
  charged now ttl refs s low =
      (phase3 r (of_int tokens) usd (of_int ttl) now (buckets now s refs) low s).1

  charged-IsAdmitted :
      (frame : Store F → Type 0) (now : F) (ttl : ℤ) (refs : List (BucketRef F)) (s : Store F)
      (low : Minima F) (dec : Decision F)
      → IsDistinctRefs refs
      → frame (charged now ttl refs s low)
      → (lt (of_int tokens) nought || lt usd nought) ≡ false
      → All (RefCovers (of_int tokens) usd now s) refs
      → dec.allowed ≡ true
      → IsAdmitted frame now ttl refs s dec (charged now ttl refs s low)
  unfolding compute
  charged-IsAdmitted frame now ttl refs s low dec distinct kept fine covered e = (
    e,
    ground arith,
    ground arith,
    covered,
    (All-buckets _ now s refs).1 (
        phase3-IsWritten r (of_int tokens) usd (of_int ttl) now (buckets now s refs) low s
          (buckets-IsDistinct now s refs distinct)),
    kept,
  )

  decode-accepted :
      (refs : List (BucketRef F)) (t u : F) (dec : Decision F)
      → decode refs (convert (record { flag = pos 1; index = pos 0; tokens = t; usd = u }))
        ≡ decided dec
      → dec.allowed ≡ true
  unfolding decode convert
  decode-accepted refs t u dec h = ap (λ o. (decision_or dec o).allowed) (sym h)

  reference-IsExplained :
      (frame : Store F → Type 0) (sec usec : ℕ) (ttl : ℤ) (refs : List (BucketRef F)) (s : Store F)
      (dec : Decision F)
      → IsDistinctRefs refs
      → ((low : Minima F) → frame (charged (now_of sec usec) ttl refs s low))
      → let (out, s') = reference r sec usec refs tokens usd ttl s in
        decode refs (convert out) ≡ decided dec
        → IsExplained frame (now_of sec usec) ttl refs s dec s'
  unfolding reference decide
  reference-IsExplained frame sec usec ttl refs s dec distinct kept =
      let now = now_of sec usec in
      let bs = buckets now s refs in
      let found = phase2-Found (of_int tokens) usd now s 1 refs in
      elim (Bool-cases (lt (of_int tokens) nought || lt usd nought)) [
        | inl negative ↦
            rw (negative, reference)
              λ h.
                let (_, a, b, c, e) =
                  refused-IsInvalid refs s dec negative (of_refusal refs _ _ _ dec h) in
                inr (inr (refl, a, b, c, e))
        | inr fine ↦ elim (Option-cases (phase2 (of_int tokens) usd 1 bs)) [
          | inl e ↦
              rw (fine, e, reference, decide)
                λ h.
                  let low : Minima F = record { min_tokens = none; min_usd = none } in
                  inl (
                    charged-IsAdmitted frame now ttl refs s low dec distinct (kept low) fine
                      (subst (Found (of_int tokens) usd now s 1 refs) e found)
                      (decode-accepted refs _ _ dec h))
          | inr ((n, x), e) ↦
              let (i, b, first, m, _) = subst (Found (of_int tokens) usd now s 1 refs) e found in
              rw (fine, e, reference, decide)
                λ h. inr (
                  inl (
                    refused-IsOverBudget now refs s dec n i b _ _ first m
                      (of_refusal refs _ _ _ dec h)))
        ]
      ]

  -- Without a frame.
  pub check_and_decrement-cases :
      (w : Weather) (refs : List (BucketRef F)) (y : System F) (dec : Decision F)
      → IsDistinctRefs refs
      → is_once w.evalsha ≡ true
      → is_once w.eval ≡ true
      → (check_and_decrement r w refs tokens usd y).0 ≡ decided dec
      → let s' = (check_and_decrement r w refs tokens usd y).1.store in
        IsExplained (λ _. Unit) (now_of w.sec w.usec) y.state_ttl refs y.store dec s'
  check_and_decrement-cases w refs y dec distinct o o' h =
      let (_, e, e') = check_and_decrement-decided r w refs tokens usd y dec o o' h in
      rw e (
        reference-IsExplained (λ _. Unit) w.sec w.usec y.state_ttl refs y.store dec distinct
          (λ low. tt) e')

  -- If no two refs share a key and no answer of Redis is lost and asked for again, a decision tells all
  -- that happened. Either the call is allowed: no
  -- amount is negative, every bucket has enough, each bucket is charged from the state before, and
  -- any other key is left alone. Or it is over budget: the store is unchanged, and the scope and the
  -- reason are those of the first ref whose bucket is short. Or an amount is negative: the store is
  -- unchanged, and the request is called invalid.
  pub check_and_decrement-IsExplained :
      (w : Weather) (refs : List (BucketRef F)) (other : String) (y : System F) (dec : Decision F)
      → IsDistinctRefs refs
      → IsFreshRef other refs
      → is_once w.evalsha ≡ true
      → is_once w.eval ≡ true
      → (check_and_decrement r w refs tokens usd y).0 ≡ decided dec
      → let s' = (check_and_decrement r w refs tokens usd y).1.store in
        IsExplained
          (λ s. s other ≡ y.store other)
          (now_of w.sec w.usec)
          y.state_ttl
          refs
          y.store
          dec
          s'
  check_and_decrement-IsExplained w refs other y dec distinct fresh o o' h =
      let (_, e, e') = check_and_decrement-decided r w refs tokens usd y dec o o' h in
      let now = now_of w.sec w.usec in
      rw e (
        reference-IsExplained (λ s. s other ≡ y.store other) w.sec w.usec y.state_ttl refs y.store
          dec distinct
          (λ low.
            phase3_fresh r (of_int tokens) usd (of_int y.state_ttl) now other
              (buckets now y.store refs) low y.store (buckets-IsFresh other now y.store refs fresh))
          e')
