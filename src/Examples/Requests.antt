-- ===== src/Examples/Requests.antt =====
-- A request from end to end, for gateway/internal/proxy/handler.go.
use budget_governor.Prelude.{false, List, [], ◌∷◌}
use budget_governor.Prelude.Int.{ℤ, pos}
use budget_governor.Prelude.Float.{fixed, fixed_of_int}
use budget_governor.Budget.Types.{BucketRef}
use budget_governor.Budget.ConfigCache.{ConfigMap, resolve}
use budget_governor.Provider.Tokenizer.{Unicode}
use budget_governor.Proxy.Advisor.{no_answer}
use budget_governor.Proxy.Pressure.{no_database}
use budget_governor.Proxy.Requests.{ClientChatRequest}
use budget_governor.Proxy.Handler.{Outside, Caller}
use budget_governor.Examples.Budgets.{redis}
use budget_governor.Examples.Dispatches.{router, transport}

abbrev ascii : Unicode
ascii = record { is_space = λ r. false; is_letter = λ r. false; is_digit = λ r. false }

abbrev outside : Outside ℤ
outside = record {
  redis = redis;
  router = router;
  transport = transport;
  unicode = ascii;
  policy_config = record {
    min_confidence = pos 600_000_000;
    min_partial_allowance_tokens = pos 64;
  };
  advisor = λ req. no_answer;
  history = λ tenant agent. no_database;
}

abbrev caller : Caller
caller = record {
  identity = record { tenant_id = "acme"; key_id = "k1"; scopes = "agent" ∷ [] };
  agent_id = "writer";
  task_id = "";
  trace_id = "t1";
}

abbrev entries : ConfigMap ℤ
entries =
    (
      record { tenant_id = "acme"; agent_id = ""; task_id = "" },
      record {
        token_limit = pos 1000;
        dollar_limit = fixed_of_int (pos 2);
        refill_tokens_per_sec = pos 0;
        refill_usd_per_sec = pos 0;
      },
    )
    ∷ []

abbrev body : ClientChatRequest ℤ
body = record {
  model = "mock-small";
  messages = record { role = "user"; content = "Hi" } ∷ [];
  max_tokens = pos 100;
  temperature = pos 0;
  stream = false;
}

abbrev refs : List (BucketRef ℤ)
refs = resolve "acme" "writer" "" entries
