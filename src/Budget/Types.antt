-- ===== src/Budget/Types.antt =====
-- The data types of gateway/internal/budget/bucket.go, and the keys of the buckets.
use Prim.Native.String
use budget_governor.Prelude.{String, Bool, Option}
use budget_governor.Prelude.Int.{ℤ}

pub data Scope : Type 0 where
  task agent tenant : Scope

-- `no_reason` is the empty text.
pub data RejectReason : Type 0 where
  no_reason over_task_budget over_agent_budget over_tenant_budget invalid_request : RejectReason

-- the map `scopeReason`
unfoldable pub scope_reason : Scope → RejectReason
scope_reason task = over_task_budget
scope_reason agent = over_agent_budget
scope_reason tenant = over_tenant_budget

-- A limit of zero is not enforced.
pub record Limits (F : Type 0) : Type 0 where
  pub token_limit : ℤ
  pub dollar_limit : F
  pub refill_tokens_per_sec : F
  pub refill_usd_per_sec : F

pub record BucketRef (F : Type 0) : Type 0 where
  pub scope : Scope
  pub key : String
  pub limits : Limits F

infixr 65 ◌++ₛ◌
abbrev pub ◌++ₛ◌ : String → String → String
s ++ₛ t = String.◌++◌ s t

unfoldable pub bucket_key : String → String → String → Scope → String
bucket_key tenant_id agent_id task_id task =
    "budget:" ++ₛ tenant_id ++ₛ ":" ++ₛ agent_id ++ₛ ":" ++ₛ task_id
bucket_key tenant_id agent_id task_id agent = "budget:" ++ₛ tenant_id ++ₛ ":" ++ₛ agent_id ++ₛ ":-"
bucket_key tenant_id agent_id task_id tenant = "budget:" ++ₛ tenant_id ++ₛ ":-:-"

pub record Decision (F : Type 0) : Type 0 where
  pub allowed : Bool
  pub reason : RejectReason
  -- `none` is the empty scope
  pub failed_scope : Option Scope
  pub remaining_tokens : F
  pub remaining_usd : F
