-- ===== src/Budget/ConfigCache/Resolve.antt =====
-- The refs that `Resolve` gives.
use budget_governor.Prelude.{
  String, List, [], ◌∷◌, ◌++◌, ◌≡◌, ◌≢◌, sym, ◌⊎◌, inl, inr, str_eq, Bool-cases, Option-cases, All,
}
use mathlib.Core.Path.{subst}
use mathlib.Core.List.{append-nil}
use budget_governor.Prelude.Float.{Float}
use budget_governor.Budget.Types.{Limits, BucketRef, task, agent, tenant, bucket_key}
use budget_governor.Budget.Enforcer.Marshal.{IsFreshRef, IsDistinctRefs}
use budget_governor.Budget.ConfigCache.{ConfigMap, lookup, task_ref, agent_ref, tenant_ref, resolve}
use budget_governor.Budget.ConfigCache.Keys.{
  ne-str_eq_both, task-ne-agent, task-ne-tenant, agent-ne-tenant,
}

module _ {F : Type 0} where
  -- No ref, or one with some limits.
  abbrev IsOptional : (Limits F → BucketRef F) → List (BucketRef F) → Type 0
  IsOptional f refs = (refs ≡ []) ⊎ ((l : Limits F) × (refs ≡ f l ∷ []))

  optional-All {κ} :
      (P : BucketRef F → Type κ) (f : Limits F → BucketRef F) (refs : List (BucketRef F))
      → IsOptional f refs
      → ((l : Limits F) → P (f l))
      → All P refs
  optional-All P f refs (inl e) h = subst (All P) (sym e) tt
  optional-All P f refs (inr (l, e)) h = subst (All P) (sym e) (h l, tt)

  All-append {κ} :
      (P : BucketRef F → Type κ) (xs ys : List (BucketRef F))
      → All P xs
      → All P ys
      → All P (xs ++ ys)
  All-append P [] ys h k = k
  All-append P (x ∷ xs) ys h k = (h.0, All-append P xs ys h.1 k)

module _ {F : Type 0} (t a k : String) (entries : ConfigMap F) where
  abbrev task_at : Limits F → BucketRef F
  task_at l = record { scope = task; key = bucket_key t a k task; limits = l }

  abbrev agent_at : Limits F → BucketRef F
  agent_at l = record { scope = agent; key = bucket_key t a "" agent; limits = l }

  abbrev tenant_at : Limits F → BucketRef F
  tenant_at l = record { scope = tenant; key = bucket_key t "" "" tenant; limits = l }

  task_ref-IsOptional : IsOptional task_at (task_ref t a k entries)
  unfolding task_ref
  task_ref-IsOptional = elim (Bool-cases (str_eq k "")) [
    | inl e ↦ inl (rw e)
    | inr e ↦
        elim (Option-cases (lookup (record { tenant_id = t; agent_id = a; task_id = k }) entries)) [
          | inl n ↦ inl (rw (e, n))
          | inr (l, s) ↦ inr (l, rw (e, s))
        ]
  ]

  agent_ref-IsOptional : IsOptional agent_at (agent_ref t a k entries)
  unfolding agent_ref
  agent_ref-IsOptional = elim (Bool-cases (str_eq a "")) [
    | inl e ↦ inl (rw e)
    | inr e ↦
        elim (Option-cases
          (lookup (record { tenant_id = t; agent_id = a; task_id = "" }) entries)) [
            | inl n ↦ inl (rw (e, n))
            | inr (l, s) ↦ inr (l, rw (e, s))
          ]
  ]

  tenant_ref-IsOptional : IsOptional tenant_at (tenant_ref t a k entries)
  unfolding tenant_ref
  tenant_ref-IsOptional =
      elim (Option-cases (lookup (record { tenant_id = t; agent_id = ""; task_id = "" }) entries)) [
        | inl n ↦ inl (rw (n, tenant_ref))
        | inr (l, s) ↦ inr (l, rw (s, tenant_ref))
      ]

  pub resolve-All {κ} :
      (P : BucketRef F → Type κ)
      → ((l : Limits F) → P (task_at l))
      → ((l : Limits F) → P (agent_at l))
      → ((l : Limits F) → P (tenant_at l))
      → All P (resolve t a k entries)
  unfolding resolve
  resolve-All P x y z = All-append P _ _ (optional-All P task_at _ task_ref-IsOptional x) (
      All-append P _ _ (optional-All P agent_at _ agent_ref-IsOptional y)
        (optional-All P tenant_at _ tenant_ref-IsOptional z))

module _ {F : Type 0} ⦃d : Float F⦄ where
  optional-IsDistinctRefs :
      (f : Limits F → BucketRef F) (refs rest : List (BucketRef F))
      → IsOptional f refs
      → ((l : Limits F) → IsFreshRef (f l).key rest)
      → IsDistinctRefs rest
      → IsDistinctRefs (refs ++ rest)
  optional-IsDistinctRefs f refs rest (inl e) fresh h =
      subst (λ x. IsDistinctRefs (x ++ rest)) (sym e) h
  optional-IsDistinctRefs f refs rest (inr (l, e)) fresh h =
      subst (λ x. IsDistinctRefs (x ++ rest)) (sym e) (fresh l, h)

  -- If the agent and the task are not called "-", the refs of a request have different keys.
  pub resolve-IsDistinctRefs :
      (t a k : String) (entries : ConfigMap F)
      → a ≢ "-"
      → k ≢ "-"
      → IsDistinctRefs (resolve t a k entries)
  unfolding resolve
  resolve-IsDistinctRefs t a k entries p q =
      let last = tenant_ref-IsOptional t a k entries in
      let middle = agent_ref-IsOptional t a k entries in
      optional-IsDistinctRefs (task_at t a k entries) _ _ (task_ref-IsOptional t a k entries)
        (λ l.
          All-append _ _ _
            (optional-All _ _ _ middle (λ m. ne-str_eq_both _ _ (task-ne-agent t a k q)))
            (optional-All _ _ _ last (λ m. ne-str_eq_both _ _ (task-ne-tenant t a k q))))
        (optional-IsDistinctRefs (agent_at t a k entries) _ _ middle
          (λ l. optional-All _ _ _ last (λ m. ne-str_eq_both _ _ (agent-ne-tenant t a p)))
          (subst IsDistinctRefs (append-nil _)
            (optional-IsDistinctRefs (tenant_at t a k entries) _ [] last (λ l. tt) tt)))
