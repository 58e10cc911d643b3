-- ===== src/Services/Budgets.antt =====
-- controlplane/app/api/budgets.py: upsert_budget, on the table that the gateway reads. The columns id,
-- period_seconds and updated_at, which the gateway does not read, are left out.

pub mod Scopes
pub mod Tidy
pub mod Changed
pub mod Seen
use budget_governor.Prelude.{
  String, Bool, true, false, ◌&&◌, Option, none, some, List, [], ◌∷◌, ◌++◌, str_eq, if◌then◌else◌,
}
use budget_governor.Prelude.Int.{ℤ}
use budget_governor.Budget.ConfigCache.{Row}
use budget_governor.Services.Keys.{KeyOwner, has_text}

-- The body of the request; and how the columns dollar_limit and refill_rate_per_min, NUMERIC(12, 6) and
-- NUMERIC(14, 4), round a number, and whether the commit goes well.
pub record UpsertBudget (F : Type 0) : Type 0 where
  pub agent_id : Option String
  pub task_id : Option String
  pub token_limit : Option ℤ
  pub dollar_limit : Option F
  pub refill_rate_per_min : F
  pub round_dollars : F → F
  pub round_rate : F → F
  pub commits : Bool

-- `many_budgets` is the exception of scalar_one_or_none for more than one row.
pub data Upserted : Type 0 where
  no_identity insufficient_scope invalid_budget many_budgets not_committed upserted : Upserted

abbrev pub map_option : {F : Type 0} → (F → F) → Option F → Option F
map_option f none = none
map_option f (some x) = some (f x)

-- Whether a column has a value, where none is asked for with IS NULL.
abbrev pub same_text : Option String → Option String → Bool
same_text none none = true
same_text (some a) (some b) = str_eq a b
same_text _ _ = false

module _ {F : Type 0} (tenant_id : String) (body : UpsertBudget F) where
  unfoldable pub is_scope : Row F → Bool
  is_scope r =
      str_eq r.tenant_id tenant_id
      && (same_text r.agent_id body.agent_id && same_text r.task_id body.task_id)

  unfoldable pub select_budgets : List (Row F) → List (Row F)
  select_budgets [] = []
  select_budgets (r ∷ rows) =
      let rest = select_budgets rows in if is_scope r then r ∷ rest else rest

  unfoldable pub new_budget : Row F
  new_budget = record {
    tenant_id = tenant_id;
    agent_id = body.agent_id;
    task_id = body.task_id;
    token_limit = body.token_limit;
    dollar_limit = map_option body.round_dollars body.dollar_limit;
    refill_per_minute = some (body.round_rate body.refill_rate_per_min);
  }

  unfoldable pub set_limits : Row F → Row F
  set_limits r = record r {
    token_limit = body.token_limit;
    dollar_limit = map_option body.round_dollars body.dollar_limit;
    refill_per_minute = some (body.round_rate body.refill_rate_per_min);
  }

  -- The row that was found is the only one of its scope.
  unfoldable pub update_scope : List (Row F) → List (Row F)
  update_scope [] = []
  update_scope (r ∷ rows) = (if is_scope r then set_limits r else r) ∷ update_scope rows

  abbrev pub committed_as : List (Row F) → List (Row F) → Upserted × List (Row F)
  committed_as table table' = if body.commits then (upserted, table') else (not_committed, table)

  -- From the row that was found on.
  abbrev pub store_budget : List (Row F) → List (Row F) → Upserted × List (Row F)
  store_budget table [] = committed_as table (table ++ new_budget ∷ [])
  store_budget table (r ∷ []) = committed_as table (update_scope table)
  store_budget table (r ∷ r' ∷ rest) = (many_budgets, table)

  abbrev pub is_unlimited : Option ℤ → Option F → Bool
  is_unlimited none none = true
  is_unlimited _ _ = false

  abbrev pub may_upsert : KeyOwner → Bool
  may_upsert i = has_text i.scopes "admin" && str_eq i.tenant_id tenant_id

  -- `require_scopes("admin")` and the checks of `upsert_budget`.
  unfoldable pub upsert_budget : Option KeyOwner → List (Row F) → Upserted × List (Row F)
  upsert_budget none table = (no_identity, table)
  upsert_budget (some i) table =
      if may_upsert i
      then (if is_unlimited body.token_limit body.dollar_limit
          then (invalid_budget, table)
          else store_budget table (select_budgets table))
      else (insufficient_scope, table)
