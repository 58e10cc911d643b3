-- ===== src/Budget/ConfigCache.antt =====
-- gateway/internal/budget/configcache.go.
pub mod Load
pub mod Keys
pub mod Resolve
pub mod Isolation
use budget_governor.Prelude.{
  String, Bool, true, false, ◌&&◌, Option, none, some, List, [], ◌∷◌, ◌++◌, str_eq, if◌then◌else◌,
}
use budget_governor.Prelude.Int.{ℤ, pos, ltb_ℤ}
use budget_governor.Prelude.Float.{Float, nought}
use budget_governor.Budget.Types.{Limits, BucketRef, task, agent, tenant, bucket_key}
use budget_governor.Budget.Script.{or_else}

-- One row of the table `budgets`; `none` is NULL.
pub record Row (F : Type 0) : Type 0 where
  pub tenant_id : String
  pub agent_id : Option String
  pub task_id : Option String
  pub token_limit : Option ℤ
  pub dollar_limit : Option F
  pub refill_per_minute : Option F

pub record ConfigKey : Type 0 where
  pub tenant_id : String
  pub agent_id : String
  pub task_id : String

abbrev pub same_key : ConfigKey → ConfigKey → Bool
same_key a b =
    str_eq a.tenant_id b.tenant_id && (str_eq a.agent_id b.agent_id && str_eq a.task_id b.task_id)

-- The map `data`: the entry that was put last stands first.
abbrev pub ConfigMap : Type 0 → Type 0
ConfigMap F = List (ConfigKey × Limits F)

abbrev pub text_of : Option String → String
text_of none = ""
text_of (some s) = s

unfoldable pub key_of : {F : Type 0} → Row F → ConfigKey
key_of r = record {
  tenant_id = r.tenant_id;
  agent_id = text_of r.agent_id;
  task_id = text_of r.task_id;
}

unfoldable pub lookup : {F : Type 0} → ConfigKey → ConfigMap F → Option (Limits F)
lookup key [] = none
lookup key ((k, l) ∷ entries) = if same_key k key then some l else lookup key entries

-- What a query gives: an error at once, or rows, of which `none` cannot be scanned, and at the end
-- whether the rows ended in an error.
pub data Query (F : Type 0) : Type 0 where
  query_failed : Query F
  result : List (Option (Row F)) → Bool → Query F

module _ {F : Type 0} ⦃d : Float F⦄ where
  open d use {of_int, mul, div}

  abbrev pub per_second : Option F → F
  per_second none = nought
  per_second (some x) = div x (of_int (pos 60))

  -- The dollars that refill in a second.
  abbrev pub usd_rate : F → Option ℤ → F → F
  usd_rate refill none dollars = div dollars (of_int (pos 60))
  usd_rate refill (some tokens) dollars =
      if ltb_ℤ (pos 0) tokens
      then mul refill (div dollars (of_int tokens))
      else div dollars (of_int (pos 60))

  abbrev pub dollar_rate : F → Row F → Option F → F
  dollar_rate refill r none = nought
  dollar_rate refill r (some dollars) = usd_rate refill r.token_limit dollars

  abbrev pub token_rate : F → Option ℤ → F
  token_rate refill none = nought
  token_rate refill (some n) = refill

  -- The body of the loop of `Refresh`.
  unfoldable pub limits_of : Row F → Limits F
  limits_of r =
      let refill = per_second r.refill_per_minute in
      record {
        token_limit = or_else r.token_limit (pos 0);
        dollar_limit = or_else r.dollar_limit nought;
        refill_tokens_per_sec = token_rate refill r.token_limit;
        refill_usd_per_sec = dollar_rate refill r r.dollar_limit;
      }

  -- The loop of `Refresh`; `none` is an error of `Scan`.
  unfoldable pub load : List (Option (Row F)) → ConfigMap F → Option (ConfigMap F)
  load [] next = some next
  load (none ∷ rows) next = none
  load (some r ∷ rows) next = load rows ((key_of r, limits_of r) ∷ next)

  abbrev replaced : Option (ConfigMap F) → Bool → ConfigMap F → Bool × ConfigMap F
  replaced (some next) true entries = (true, next)
  replaced _ _ entries = (false, entries)

  -- `false` is an error.
  unfoldable pub refresh : Query F → ConfigMap F → Bool × ConfigMap F
  refresh query_failed entries = (false, entries)
  refresh (result rows ended_well) entries = replaced (load rows []) ended_well entries

  -- `RunRefreshLoop`: one reload for each tick, its error only logged.
  unfoldable pub run_refresh_loop : List (Query F) → ConfigMap F → ConfigMap F
  run_refresh_loop [] entries = entries
  run_refresh_loop (q ∷ queries) entries = run_refresh_loop queries (refresh q entries).1

-- A map that is not there yet is an empty one.
unfoldable pub seed : {F : Type 0} → String → String → String → Limits F → ConfigMap F → ConfigMap F
seed tenant_id agent_id task_id limits entries =
    (record { tenant_id = tenant_id; agent_id = agent_id; task_id = task_id }, limits) ∷ entries

module _ {F : Type 0} (tenant_id agent_id task_id : String) where
  -- The ref of each scope, if the scope applies and has a row.
  unfoldable pub task_ref : ConfigMap F → List (BucketRef F)
  task_ref entries =
      if str_eq task_id ""
      then []
      else (elim (lookup (record { tenant_id = tenant_id; agent_id = agent_id; task_id = task_id })
          entries) [
            | some l ↦
                record {
                  scope = task;
                  key = bucket_key tenant_id agent_id task_id task;
                  limits = l;
                }
                ∷ []
            | none ↦ []
          ])

  unfoldable pub agent_ref : ConfigMap F → List (BucketRef F)
  agent_ref entries =
      if str_eq agent_id ""
      then []
      else (elim (lookup (record { tenant_id = tenant_id; agent_id = agent_id; task_id = "" })
          entries) [
            | some l ↦
                record { scope = agent; key = bucket_key tenant_id agent_id "" agent; limits = l }
                ∷ []
            | none ↦ []
          ])

  unfoldable pub tenant_ref : ConfigMap F → List (BucketRef F)
  tenant_ref entries =
      elim (lookup (record { tenant_id = tenant_id; agent_id = ""; task_id = "" }) entries) [
        | some l ↦
            record { scope = tenant; key = bucket_key tenant_id "" "" tenant; limits = l } ∷ []
        | none ↦ []
      ]

  unfoldable pub resolve : ConfigMap F → List (BucketRef F)
  resolve entries = task_ref entries ++ (agent_ref entries ++ tenant_ref entries)
