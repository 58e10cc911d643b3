-- ===== src/Examples/Changes.antt =====
-- Two requests of an administrator to controlplane/app/api/budgets.py.
use budget_governor.Prelude.{◌≡◌, refl, String, true, Option, none, some, List, [], ◌∷◌}
use budget_governor.Prelude.Int.{ℤ, pos}
use budget_governor.Prelude.Float.{fixed}
use budget_governor.Budget.ConfigCache.{Row, ConfigKey}
use budget_governor.Services.Keys.{KeyOwner, has_text}
use budget_governor.Services.Budgets.{
  UpsertBudget, many_budgets, is_scope, select_budgets, upsert_budget,
}

abbrev administrator : Option KeyOwner
administrator =
    some (record { tenant_id = "acme"; key_id = "key_1"; scopes = "admin" ∷ []; agent_id = none })

-- A budget of Acme for one agent, or with `none` for all of it.
abbrev acme_row : Option String → Row ℤ
acme_row agent_id = record {
  tenant_id = "acme";
  agent_id = agent_id;
  task_id = none;
  token_limit = some (pos 1000);
  dollar_limit = none;
  refill_per_minute = some (pos 0);
}

abbrev acme_rows : List (Row ℤ)
acme_rows = acme_row none ∷ acme_row (some "bot") ∷ []

abbrev more_for_bot : UpsertBudget ℤ
more_for_bot = record {
  agent_id = some "bot";
  task_id = none;
  token_limit = some (pos 5000);
  dollar_limit = none;
  refill_rate_per_min = pos 0;
  round_dollars = λ x. x;
  round_rate = λ x. x;
  commits = true;
}

abbrev bot_key : ConfigKey
bot_key = record { tenant_id = "acme"; agent_id = "bot"; task_id = "" }

-- Where two budgets of the whole tenant got into the table, no request can change them any more.
many_rows :
    (upsert_budget "acme"
      (record more_for_bot { agent_id = none })
      administrator
      (acme_row none ∷ acme_row none ∷ [])).0
    ≡ many_budgets
unfolding upsert_budget has_text select_budgets is_scope
many_rows = refl
