-- ===== src/Services/Budgets/Changed.antt =====
-- The limits of each scope behind upsert_budget.
use mathlib.Core.Path.{subst}
use budget_governor.Prelude.{
  String, true, false, Option, none, some, List, [], ◌∷◌, ◌++◌, ◌≡◌, refl, sym, ◌∙◌, inl, inr, All,
  Bool-cases,
}
use budget_governor.Prelude.Float.{Float}
use budget_governor.Budget.Types.{Limits}
use budget_governor.Budget.ConfigCache.{Row, ConfigKey, same_key, key_of, limits_of}
use budget_governor.Services.Budgets.{
  UpsertBudget, is_scope, select_budgets, new_budget, set_limits, update_scope,
}
use budget_governor.Services.Budgets.Scopes.{same_key-eq, IsNamed, first}
use budget_governor.Services.Budgets.Tidy.{IsNamedRow, scope_of, is_scope-key}

module _ {F : Type 0} ⦃d : Float F⦄ (tenant_id : String) (body : UpsertBudget F) where
  -- The limits that the request asks for, as the columns round its numbers.
  abbrev pub limits_asked : Limits F
  limits_asked = limits_of (new_budget tenant_id body)

  abbrev pub asked_if_any : List (Row F) → Option (Limits F)
  asked_if_any [] = none
  asked_if_any (r ∷ rows) = some limits_asked

  limits_of-set_limits : (r : Row F) → limits_of (set_limits tenant_id body r) ≡ limits_asked
  unfolding limits_of set_limits new_budget
  limits_of-set_limits r = refl

  key_of-set_limits : (r : Row F) → key_of (set_limits tenant_id body r) ≡ key_of r
  unfolding key_of set_limits
  key_of-set_limits r = refl

  module _ (agent_named : IsNamed body.agent_id) (task_named : IsNamed body.task_id)
      (key : ConfigKey) where
    same_key-scope :
        (r : Row F)
        → IsNamedRow r
        → same_key (scope_of tenant_id body) key ≡ true
        → same_key (key_of r) key ≡ is_scope tenant_id body r
    same_key-scope r named e =
        rw (← same_key-eq (scope_of tenant_id body) key e)
          (sym (is_scope-key tenant_id body agent_named task_named r named))

    not_same_key :
        (r : Row F)
        → IsNamedRow r
        → same_key (scope_of tenant_id body) key ≡ false
        → is_scope tenant_id body r ≡ true
        → same_key (key_of r) key ≡ false
    not_same_key r named e h =
        let p : key_of r ≡ scope_of tenant_id body =
          same_key-eq _ _ (sym (is_scope-key tenant_id body agent_named task_named r named) ∙ h) in
        rw p e

    pub first-update_hit :
        (rows : List (Row F))
        → All IsNamedRow rows
        → same_key (scope_of tenant_id body) key ≡ true
        → first key (update_scope tenant_id body rows)
          ≡ asked_if_any (select_budgets tenant_id body rows)
    unfolding first update_scope select_budgets
    first-update_hit [] named e = refl
    first-update_hit (r ∷ rows) named e =
        let same = same_key-scope r named.0 e in
        let rest = first-update_hit rows named.1 e in
        elim (Bool-cases (is_scope tenant_id body r)) [
          | inl h ↦ rw (h, key_of-set_limits r, same, h, limits_of-set_limits r) refl
          | inr h ↦ rw (h, same, h) rest
        ]

    pub first-update_miss :
        (rows : List (Row F))
        → All IsNamedRow rows
        → same_key (scope_of tenant_id body) key ≡ false
        → first key (update_scope tenant_id body rows) ≡ first key rows
    unfolding first update_scope
    first-update_miss [] named e = refl
    first-update_miss (r ∷ rows) named e =
        let rest = first-update_miss rows named.1 e in
        elim (Bool-cases (is_scope tenant_id body r)) [
          | inl h ↦
              let other = not_same_key r named.0 e h in rw (h, key_of-set_limits r, other) rest
          | inr h ↦ rw (h, rest) refl
        ]

    pub first-append_hit :
        (rows : List (Row F))
        → All (λ r. same_key (key_of r) (scope_of tenant_id body) ≡ false) rows
        → same_key (scope_of tenant_id body) key ≡ true
        → first key (rows ++ new_budget tenant_id body ∷ []) ≡ some limits_asked
    unfolding first
    first-append_hit [] h e = rw e refl
    first-append_hit (r ∷ rows) (h, hs) e =
        let other : same_key (key_of r) key ≡ false =
          subst (λ k. same_key (key_of r) k ≡ false) (same_key-eq (scope_of tenant_id body) key e)
            h in
        let rest = first-append_hit rows hs e in rw other rest

    pub first-append_miss :
        (rows : List (Row F))
        → same_key (scope_of tenant_id body) key ≡ false
        → first key (rows ++ new_budget tenant_id body ∷ []) ≡ first key rows
    unfolding first
    first-append_miss [] e = rw e refl
    first-append_miss (r ∷ rows) e = rw (first-append_miss rows e) refl
