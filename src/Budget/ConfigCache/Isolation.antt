-- ===== src/Budget/ConfigCache/Isolation.antt =====
-- Requests of one tenant leave the buckets of every other tenant alone.
use budget_governor.Prelude.{
  String, List, [], ◌∷◌, ◌≡◌, ◌≢◌, refl, sym, inl, inr, All, arith, Bool-cases, ◌||◌, Option-cases,
  ℕ, false, str_eq, ◌∙◌, ap, none, some,
}
use budget_governor.Prelude.Int.{ℤ}
use budget_governor.Prelude.Float.{Float, nought}
use budget_governor.Budget.Types.{Scope, task, agent, tenant, bucket_key, BucketRef}
use budget_governor.Budget.Script.{Store, Redis, Bucket, decide, phase2, now_of, Reply, run}
use budget_governor.Budget.Script.Commit.{IsFresh, phase3_fresh}
use budget_governor.Budget.Enforcer.{Weather, System, eval, check_and_decrement, arguments, keys_of}
use budget_governor.Budget.Enforcer.Eval.{eval-IsKeeping}
use budget_governor.Budget.Enforcer.Marshal.{
  IsFreshRef, buckets, buckets-IsFresh, reference, run-arguments,
}
use budget_governor.Budget.ConfigCache.{ConfigMap, resolve}
use budget_governor.Budget.ConfigCache.Keys.{IsField, bucket_key_tenant, ne-str_eq_both}
use budget_governor.Budget.ConfigCache.Resolve.{resolve-All}

module _ {F : Type 0} ⦃d : Float F⦄ (r : Redis F) where
  open d use {of_int, lt}

  decide_frame :
      (tokens usd ttl now : F) (bs : List (Bucket F)) (s : Store F) (other : String)
      → IsFresh other bs
      → (decide r tokens usd ttl now bs s).1 other ≡ s other
  unfolding decide
  decide_frame tokens usd ttl now bs s other fresh = elim (Option-cases (phase2 tokens usd 1 bs)) [
    | inl e ↦ rw (e, decide) (phase3_fresh r tokens usd ttl now other bs _ s fresh)
    | inr (x, e) ↦ rw (e, decide)
  ]

  reference_frame :
      (sec usec : ℕ) (refs : List (BucketRef F)) (tokens : ℤ) (usd : F) (ttl : ℤ) (s : Store F)
      (other : String)
      → IsFreshRef other refs
      → (reference r sec usec refs tokens usd ttl s).1 other ≡ s other
  unfolding reference
  reference_frame sec usec refs tokens usd ttl s other fresh =
      let now = now_of sec usec in
      elim (Bool-cases (lt (of_int tokens) nought || lt usd nought)) [
        | inl e ↦ rw e
        | inr e ↦ rw e (
            decide_frame (of_int tokens) usd (of_int ttl) now (buckets now s refs) s other
              (buckets-IsFresh other now s refs fresh))
      ]

  run_frame :
      (sec usec : ℕ) (refs : List (BucketRef F)) (tokens : ℤ) (usd : F) (ttl : ℤ) (s s' : Store F)
      (out : Reply F) (other : String)
      → IsFreshRef other refs
      → run r sec usec (keys_of refs) (arguments tokens usd ttl refs) s ≡ some (out, s')
      → s' other ≡ s other
  run_frame sec usec refs tokens usd ttl s s' out other fresh e =
      let frame = reference_frame sec usec refs tokens usd ttl s other fresh in
      let same : some (reference r sec usec refs tokens usd ttl s) ≡ some (out, s') =
        sym (run-arguments r sec usec refs tokens usd ttl s) ∙ e in
      let stored = ap (λ o. (elim o as (λ _. Store F) [ none ↦ s' | some p ↦ p.1 ]) other) same in
      sym stored ∙ frame

  check_and_decrement_frame :
      (w : Weather) (refs : List (BucketRef F)) (tokens : ℤ) (usd : F) (y : System F)
      (other : String)
      → IsFreshRef other refs
      → (check_and_decrement r w refs tokens usd y).1.store other ≡ y.store other
  unfolding check_and_decrement
  check_and_decrement_frame w [] tokens usd y other fresh = refl
  check_and_decrement_frame w (b ∷ bs) tokens usd y other fresh =
      let refs = b ∷ bs in
      let ran : (eval r w (keys_of refs) (arguments tokens usd y.state_ttl refs) y).1.store other
          ≡ y.store other =
        eval-IsKeeping r w (keys_of refs) (arguments tokens usd y.state_ttl refs)
          (λ s. s other ≡ y.store other)
          (λ s s' out same e.
            run_frame w.sec w.usec refs tokens usd y.state_ttl s s' out other fresh e ∙ same)
          y refl in
      ground (arith, ran)

  -- If neither of two different tenants has a colon in its name, a check of the one leaves every
  -- bucket of the other as it was, whatever agents, tasks and limits there are, and whatever
  -- commands are lost or sent again.
  pub resolve_isolation :
      (w : Weather) (t t' a a' k k' : String) (entries entries' : ConfigMap F) (tokens : ℤ)
      (usd : F) (y : System F)
      → IsField t
      → IsField t'
      → t ≢ t'
      → All
          (λ b.
            (check_and_decrement r w (resolve t a k entries) tokens usd y).1.store b.key
            ≡ y.store b.key)
          (resolve t' a' k' entries')
  resolve_isolation w t t' a a' k k' entries entries' tokens usd y p q h =
      let refs = resolve t a k entries in
      let apart : (x x' z z' : String) (scope scope' : Scope)
          → (str_eq (bucket_key t' x' z' scope') (bucket_key t x z scope) ≡ false)
            × (str_eq (bucket_key t x z scope) (bucket_key t' x' z' scope') ≡ false) =
        λ x x' z z' scope scope'.
          ne-str_eq_both _ _ (λ e. h (sym (bucket_key_tenant t' t x' x z' z scope' scope q p e))) in
      let kept : (x z : String) (scope : Scope)
          → (check_and_decrement r w refs tokens usd y).1.store (bucket_key t' x z scope)
            ≡ y.store (bucket_key t' x z scope) =
        λ x z scope. check_and_decrement_frame w refs tokens usd y (bucket_key t' x z scope) (
          resolve-All t a k entries _ (λ l. apart a x k z task scope)
            (λ l. apart a x "" z agent scope) (λ l. apart "" x "" z tenant scope)) in
      resolve-All t' a' k' entries' _ (λ l. kept a' k' task) (λ l. kept a' "" agent)
        (λ l. kept "" "" tenant)
