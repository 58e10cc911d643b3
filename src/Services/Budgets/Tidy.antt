-- ===== src/Services/Budgets/Tidy.antt =====
-- upsert_budget keeps one row for each scope.
use mathlib.Core.Path.{subst}
use mathlib.Core.Bool.{false≢true}
use budget_governor.Prelude.{
  String, Bool, true, false, List, [], ◌∷◌, ◌++◌, ◌≡◌, refl, sym, ◌∙◌, inl, inr, All, if-both,
  if◌then◌else◌, Bool-cases,
}
use budget_governor.Budget.ConfigCache.{Row, ConfigKey, same_key, key_of}
use budget_governor.Services.Budgets.{
  UpsertBudget, is_scope, select_budgets, new_budget, set_limits, update_scope,
}
use budget_governor.Services.Budgets.Scopes.{same_key-eq, IsNamed, str_eq-text_of, IsKeyed}

-- Both columns of a row have a text in them or are NULL.
abbrev pub IsNamedRow : {F : Type 0} → Row F → Type 0
IsNamedRow r = IsNamed r.agent_id × IsNamed r.task_id

abbrev pub HasNone : {A : Type 0} → List A → Type 0
HasNone [] = Unit
HasNone (x ∷ xs) = ⊥

module _ {F : Type 0} (tenant_id : String) (body : UpsertBudget F) where
  -- The scope that the gateway will read.
  abbrev pub scope_of : ConfigKey
  scope_of = key_of (new_budget tenant_id body)

  -- A new row.
  pub All-append :
      (P : Row F → Type 0) (rows : List (Row F))
      → All P rows
      → P (new_budget tenant_id body)
      → All P (rows ++ new_budget tenant_id body ∷ [])
  All-append P [] h p = (p, tt)
  All-append P (r ∷ rows) (h, hs) p = (h, All-append P rows hs p)

  module _ (agent_named : IsNamed body.agent_id) (task_named : IsNamed body.task_id) where
    pub is_scope-key :
        (r : Row F) → IsNamedRow r → is_scope tenant_id body r ≡ same_key (key_of r) scope_of
    unfolding is_scope key_of new_budget
    is_scope-key r (a, t) =
        rw
          (
            ← str_eq-text_of r.agent_id body.agent_id a agent_named,
            ← str_eq-text_of r.task_id body.task_id t task_named,
          )
          refl

    pub unscoped :
        (rows : List (Row F))
        → All IsNamedRow rows
        → HasNone (select_budgets tenant_id body rows)
        → All (λ r. same_key (key_of r) scope_of ≡ false) rows
    unfolding select_budgets
    unscoped [] named h = tt
    unscoped (r ∷ rows) named h = elim (Bool-cases (is_scope tenant_id body r)) [
      | inl e ↦ absurd (
          subst
            (λ (b : Bool). HasNone (
              if b
              then r ∷ select_budgets tenant_id body rows
              else select_budgets tenant_id body rows))
            e h)
      | inr e ↦ (
        sym (is_scope-key r named.0) ∙ e,
        unscoped rows named.1 (
            subst
              (λ (b : Bool). HasNone (
                if b
                then r ∷ select_budgets tenant_id body rows
                else select_budgets tenant_id body rows))
              e h),
      )
    ]

    pub IsKeyed-append :
        (rows : List (Row F))
        → IsKeyed rows
        → All (λ r. same_key (key_of r) scope_of ≡ false) rows
        → IsKeyed (rows ++ new_budget tenant_id body ∷ [])
    IsKeyed-append [] h k = (tt, tt)
    IsKeyed-append (r ∷ rows) (apart, h) (e, k) = (
      All-append (λ r'. same_key (key_of r) (key_of r') ≡ false) rows apart e,
      IsKeyed-append rows h k,
    )

  -- A changed row.
  pub All-update :
      (P : Row F → Type 0) (rows : List (Row F))
      → ((r : Row F) → P r → P (set_limits tenant_id body r))
      → All P rows
      → All P (update_scope tenant_id body rows)
  unfolding update_scope
  All-update P [] f h = tt
  All-update P (r ∷ rows) f (h, hs) =
      (if-both P (is_scope tenant_id body r) _ _ (λ _. f r h) (λ _. h), All-update P rows f hs)

  pub IsKeyed-update :
      (rows : List (Row F)) → IsKeyed rows → IsKeyed (update_scope tenant_id body rows)
  unfolding update_scope set_limits key_of
  IsKeyed-update [] h = tt
  IsKeyed-update (r ∷ rows) (apart, h) =
      let apart' =
        All-update (λ r'. same_key (key_of r) (key_of r') ≡ false) rows (λ _ e. e) apart in
      (
        if-both
            (λ (x : Row F).
              All (λ r'. same_key (key_of x) (key_of r') ≡ false)
                (update_scope tenant_id body rows))
            (is_scope tenant_id body r) _ _ (λ _. apart') (λ _. apart'),
        IsKeyed-update rows h,
      )

abbrev pub HasAtMostOne : {A : Type 0} → List A → Type 0
HasAtMostOne [] = Unit
HasAtMostOne (x ∷ []) = Unit
HasAtMostOne (x ∷ y ∷ xs) = ⊥

HasNone-HasAtMostOne : {A : Type 0} (x : A) (xs : List A) → HasNone xs → HasAtMostOne (x ∷ xs)
HasNone-HasAtMostOne x [] h = tt
HasNone-HasAtMostOne x (y ∷ ys) h = absurd h

module _ {F : Type 0} (tenant_id : String) (body : UpsertBudget F)
    (agent_named : IsNamed body.agent_id) (task_named : IsNamed body.task_id) where
  -- No row beside one of the scope is of it.
  others :
      (r : Row F) (rows : List (Row F))
      → All IsNamedRow rows
      → key_of r ≡ scope_of tenant_id body
      → All (λ r'. same_key (key_of r) (key_of r') ≡ false) rows
      → HasNone (select_budgets tenant_id body rows)
  unfolding select_budgets
  others r [] named p h = tt
  others r (r' ∷ rows) named p (h, hs) =
      let rest = others r rows named.1 p hs in
      if-both HasNone (is_scope tenant_id body r') _ _
        (λ e.
          let e' : same_key (key_of r') (scope_of tenant_id body) ≡ true =
            sym (is_scope-key tenant_id body agent_named task_named r' named.0) ∙ e in
          let p' = same_key-eq (key_of r') (scope_of tenant_id body) e' in
          let e'' : same_key (key_of r) (key_of r') ≡ true =
            rw (p, ← p') (subst (λ k. same_key (key_of r') k ≡ true) (sym p') e') in
          false≢true (sym h ∙ e''))
        (λ _. rest)

  pub select_budgets-HasAtMostOne :
      (rows : List (Row F))
      → All IsNamedRow rows
      → IsKeyed rows
      → HasAtMostOne (select_budgets tenant_id body rows)
  unfolding select_budgets
  select_budgets-HasAtMostOne [] named h = tt
  select_budgets-HasAtMostOne (r ∷ rows) named (apart, h) =
      let rest = select_budgets-HasAtMostOne rows named.1 h in
      if-both HasAtMostOne (is_scope tenant_id body r) _ _
        (λ e. HasNone-HasAtMostOne r (select_budgets tenant_id body rows) (
          others r rows named.1
            (same_key-eq _ _
              (sym (is_scope-key tenant_id body agent_named task_named r named.0) ∙ e))
            apart))
        (λ _. rest)
