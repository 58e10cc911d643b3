-- ===== src/Startup/Boot.antt =====
-- `main` of gateway/cmd/gateway/main.go up to the point where the gateway serves requests, with the
-- constructors of the two adapters that it calls.
pub mod Ready
use Prim.Native.Char.{code}
use Prim.Native.String
use budget_governor.Prelude.{
  ℕ, ◌*◌, String, Bool, true, false, ◌&&◌, Option, none, some, [], str_eq, ◌==◌, if◌then◌else◌,
}
use budget_governor.Prelude.Int.{ℤ, pos, pos_part, ltb_ℤ, leb_ℤ}
use budget_governor.Prelude.Float.{Float}
use budget_governor.Config.{load, mock_window, Config}
use budget_governor.Auth.Keys.{new_store}
use budget_governor.Auth.Keys
use budget_governor.Budget.Script.{Store, Redis}
use budget_governor.Budget.Enforcer.{System, Delivery, is_answered, load_script}
use budget_governor.Budget.ConfigCache.{ConfigMap, Query, refresh}
use budget_governor.Observability.Logger.{AsyncLogger, new_async_logger}
use budget_governor.Proxy.SpendWriter.{SpendWriter, new_spend_writer}
use budget_governor.Startup.{Wait, wait_for}

-- strings.TrimRight(s, "/")
unfoldable pub trim_slashes : String → String
trim_slashes String.[] = ""
trim_slashes (String.◌∷◌ c s) =
    let rest = trim_slashes s in if code c == b'/' && str_eq rest "" then "" else String.◌∷◌ c rest

-- `OpenAIProvider` and `AnthropicProvider`; their HTTP client is a parameter elsewhere.
pub record Adapter : Type 0 where
  pub api_key : String
  pub base_url : String

unfoldable pub new_openai_provider : String → String → Adapter
new_openai_provider api_key base_url = record {
  api_key = api_key;
  base_url = trim_slashes base_url;
}

unfoldable pub new_anthropic_provider : String → String → Adapter
new_anthropic_provider api_key base_url = record {
  api_key = api_key;
  base_url = trim_slashes base_url;
}

-- What `main` finds: the environment, whether the database can be opened, the pings, the server and
-- what becomes of SCRIPT LOAD, and the rows of the budgets.
pub record Surroundings (F : Type 0) : Type 0 where
  pub getenv : String → String
  pub atoi : String → Option ℤ
  pub opens : Bool
  pub ping_postgres : ℕ → Bool
  pub interrupts_postgres : ℕ → Bool
  pub ping_redis : ℕ → Bool
  pub interrupts_redis : ℕ → Bool
  pub redis : Redis F
  pub store : Store F
  pub cached : Bool
  pub script : Delivery
  pub budgets : Query F

-- The gateway when it starts to serve.
pub record Gateway (F : Type 0) : Type 0 where
  pub config : Config
  pub postgres_wait : Wait
  pub redis_wait : Wait
  pub system : System F
  pub keys : Keys.Store
  pub entries : ConfigMap F
  pub logger : AsyncLogger F
  pub writer : SpendWriter F
  pub openai : Adapter
  pub anthropic : Adapter
  pub mock : ℤ × ℤ

pub data Exit : Type 0 where
  config_failed open_failed script_failed budgets_failed : Exit

-- `crashed` is a panic: of `make` for a negative capacity, or of `time.NewTicker` in one of the
-- goroutines for an interval that is not positive.
pub data Boot (F : Type 0) : Type 0 where
  exited : Exit → Boot F
  crashed : Boot F
  serving : Gateway F → Boot F

-- The intervals of the three goroutines with a ticker, the capacity of the channel, and that of the
-- batch, which the spend writer makes when it starts.
unfoldable pub runs_on : Config → Bool
runs_on cfg =
    ltb_ℤ (pos 0) cfg.auth_cache_ttl
    && (ltb_ℤ (pos 0) cfg.budget_cache_ttl
        && (ltb_ℤ (pos 0) cfg.spend_flush_interval
            && (leb_ℤ (pos 0) cfg.spend_queue_capacity
                && leb_ℤ (pos 0) cfg.spend_flush_batch_size)))

module _ {F : Type 0} ⦃d : Float F⦄ (e : Surroundings F) where
  open e use {
    getenv, atoi, opens, ping_postgres, interrupts_postgres, ping_redis, interrupts_redis, redis,
    store, cached, script, budgets,
  }

  -- The enforcer behind `LoadScript`; its keys expire after a day.
  unfoldable pub enforcer : System F
  enforcer = load_script redis script (record {
    store = store;
    cached = cached;
    sha_set = false;
    state_ttl = pos (24 * 3600);
    runs = 0;
  })

  unfoldable pub gateway_of : Config → ConfigMap F → Gateway F
  gateway_of cfg entries = record {
    config = cfg;
    postgres_wait = wait_for ping_postgres interrupts_postgres;
    redis_wait = wait_for ping_redis interrupts_redis;
    system = enforcer;
    keys = new_store (pos_part cfg.auth_cache_ttl);
    entries = entries;
    logger = new_async_logger 10_000;
    writer =
        new_spend_writer (pos_part cfg.spend_queue_capacity) (pos_part cfg.spend_flush_batch_size);
    openai = new_openai_provider cfg.openai_api_key cfg.openai_base_url;
    anthropic = new_anthropic_provider cfg.anthropic_api_key cfg.anthropic_base_url;
    mock = mock_window cfg;
  }

  -- From the first `Refresh` on.
  abbrev pub boot_from : Config → Bool × ConfigMap F → Boot F
  boot_from cfg (false, entries) = exited budgets_failed
  boot_from cfg (true, entries) = if runs_on cfg then serving (gateway_of cfg entries) else crashed

  abbrev pub boot_loaded : Delivery → Config → Boot F
  boot_loaded v cfg =
      if is_answered v then boot_from cfg (refresh budgets []) else exited script_failed

  abbrev pub boot_with : Option Config → Boot F
  boot_with none = exited config_failed
  boot_with (some cfg) = if opens then boot_loaded script cfg else exited open_failed

  unfoldable pub boot : Boot F
  boot = boot_with (load getenv atoi)
