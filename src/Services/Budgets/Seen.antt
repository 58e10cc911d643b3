-- ===== src/Services/Budgets/Seen.antt =====
-- What the gateway reads behind upsert_budget.
use budget_governor.Prelude.{
  String, Bool, true, false, ◌&&◌, Option, none, some, List, ◌≡◌, if◌then◌else◌,
}
use budget_governor.Prelude.Float.{Float}
use budget_governor.Budget.ConfigCache.{Row, ConfigKey, same_key}
use budget_governor.Services.Keys.{KeyOwner}
use budget_governor.Services.Budgets.{
  UpsertBudget, Upserted, no_identity, insufficient_scope, invalid_budget, many_budgets,
  not_committed, upserted, is_unlimited, may_upsert,
}
use budget_governor.Services.Budgets.Scopes.{IsNamed, IsTidy, first}
use budget_governor.Services.Budgets.Tidy.{scope_of}
use budget_governor.Services.Budgets.Changed.{limits_asked}

abbrev pub is_upserted : Upserted → Bool
is_upserted upserted = true
is_upserted _ = false

module _ {F : Type 0} ⦃d : Float F⦄ (tenant_id : String) (body : UpsertBudget F) where
  -- Who may change a budget.
  abbrev pub is_admitted : Option KeyOwner → Bool
  is_admitted none = false
  is_admitted (some i) = may_upsert tenant_id body i

  -- Each outcome has its cause, and only the last changes the table.
  abbrev pub IsUpsert : Option KeyOwner → List (Row F) → Upserted × List (Row F) → Type 0
  IsUpsert i table (no_identity, table') = (i ≡ none) × (table' ≡ table)
  IsUpsert i table (insufficient_scope, table') = (is_admitted i ≡ false) × (table' ≡ table)
  IsUpsert i table (invalid_budget, table') =
      (is_admitted i ≡ true)
      × (body.token_limit ≡ none)
      × (body.dollar_limit ≡ none)
      × (table' ≡ table)
  IsUpsert i table (many_budgets, table') = ⊥
  IsUpsert i table (not_committed, table') =
      (is_admitted i ≡ true) × (body.commits ≡ false) × (table' ≡ table)
  IsUpsert i table (upserted, table') =
      (is_admitted i ≡ true)
      × (is_unlimited tenant_id body body.token_limit body.dollar_limit ≡ false)
      × IsTidy table'

  -- The limits of one scope: those asked for, or as before.
  abbrev IsChange : ConfigKey → List (Row F) → Upserted × List (Row F) → Type 0
  IsChange key table (out, table') = first key table' ≡ (
      if is_upserted out && same_key (scope_of tenant_id body) key
      then some (limits_asked tenant_id body)
      else first key table)

  module _ (agent_named : IsNamed body.agent_id) (task_named : IsNamed body.task_id)
      (key : ConfigKey) (table : List (Row F)) (tidy : IsTidy table) where
    abbrev IsDone : Option KeyOwner → Upserted × List (Row F) → Type 0
    IsDone i p = IsUpsert i table p × IsChange key table p
