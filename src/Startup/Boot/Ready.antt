-- ===== src/Startup/Boot/Ready.antt =====
-- When the gateway serves, and what it then has.
use budget_governor.Prelude.{Bool, ◌≡◌, true, false, none, some, []}
use budget_governor.Prelude.Int.{pos, ◌<ℤ◌, ◌≤ℤ◌}
use budget_governor.Prelude.Float.{Float}
use budget_governor.Config.{load, Config}
use budget_governor.Budget.Enforcer.{is_answered}
use budget_governor.Budget.ConfigCache.{refresh}
use budget_governor.Startup.Waiting.{IsWait}
use budget_governor.Startup.Boot.{
  Surroundings, Gateway, Exit, config_failed, open_failed, script_failed, budgets_failed, Boot,
  exited, crashed, serving, runs_on,
}

module _ {F : Type 0} ⦃d : Float F⦄ (e : Surroundings F) where
  -- Everything that a request needs is there.
  pub record IsReady (g : Gateway F) : Type 0 where
    pub configured : load e.getenv e.atoi ≡ some g.config
    pub opened : e.opens ≡ true
    pub loaded : is_answered e.script ≡ true
    pub budgeted : refresh e.budgets [] ≡ (true, g.entries)
    pub waited_postgres : IsWait e.ping_postgres e.interrupts_postgres 0 30 g.postgres_wait
    pub waited_redis : IsWait e.ping_redis e.interrupts_redis 0 30 g.redis_wait
    pub script_cached : g.system.cached ≡ true
    pub script_known : g.system.sha_set ≡ true
    pub untouched : g.system.store ≡ e.store
    pub no_keys : g.keys.cache ≡ []
    pub no_events : g.writer.queue ≡ []
    pub evicts : pos 0 <ℤ g.config.auth_cache_ttl
    pub reloads : pos 0 <ℤ g.config.budget_cache_ttl
    pub flushes : pos 0 <ℤ g.config.spend_flush_interval
    pub queues : pos 0 ≤ℤ g.config.spend_queue_capacity
    pub batches : pos 0 ≤ℤ g.config.spend_flush_batch_size

  abbrev pub IsExit : Exit → Type 0
  IsExit config_failed = load e.getenv e.atoi ≡ none
  IsExit open_failed = (e.opens ≡ false)
  IsExit script_failed = (is_answered e.script ≡ false)
  IsExit budgets_failed = ((refresh e.budgets []).0 ≡ false)

  abbrev pub IsBoot : Boot F → Type 0
  IsBoot (exited f) = IsExit f
  IsBoot crashed = (cfg : Config) × (load e.getenv e.atoi ≡ some cfg) × (runs_on cfg ≡ false)
  IsBoot (serving g) = IsReady g
