-- ===== src/Examples/Starting.antt =====
-- A database that comes up late, for gateway/cmd/gateway/main.go.
use budget_governor.Prelude.{ℕ, Bool, true, false, none, some, [], ◌∷◌, refl, ◌≡◌, ltb, ◌==◌}
use budget_governor.Prelude.Int.{ℤ, pos}
use budget_governor.Prelude.Float.{fixed}
use budget_governor.Config.{load, settings, checked, get_env, get_env_int, get_env_duration}
use budget_governor.Budget.Enforcer.{answered}
use budget_governor.Budget.ConfigCache.{result, refresh}
use budget_governor.Budget.ConfigCache
use budget_governor.Startup.{reached, wait_from, wait_for, readiness_handler, readiness_status}
use budget_governor.Startup.Waiting.{IsWait, wait_for-IsWait}
use budget_governor.Startup.Boot.{Surroundings, Boot, serving, boot, runs_on, trim_slashes}
use budget_governor.Examples.Budgets.{redis, empty}
use budget_governor.Examples.Tenants.{row}

abbrev late : ℕ → Bool
late n = ltb 2 n

abbrev never : ℕ → Bool
never n = false

late_test : wait_for late never ≡ reached 3
unfolding wait_for wait_from
late_test = refl

readiness_test : readiness_status (readiness_handler true false) ≡ pos 503
unfolding readiness_status readiness_handler
readiness_test = refl

wait_for-IsWait_example : IsWait late never 0 30 (wait_for late never)
wait_for-IsWait_example = wait_for-IsWait late never

-- An empty environment, a database with one budget, and a server without the script.
abbrev surroundings : Surroundings ℤ
surroundings = record {
  getenv = λ _. "";
  atoi = λ _. none;
  opens = true;
  ping_postgres = λ i. i == 2;
  interrupts_postgres = λ _. false;
  ping_redis = λ _. true;
  interrupts_redis = λ _. false;
  redis = redis;
  store = empty;
  cached = false;
  script = answered;
  budgets = result (some (row "acme" none none 9000) ∷ []) true;
}

abbrev is_serving : Boot ℤ → Bool
is_serving (serving g) = true
is_serving _ = false

boot_test : is_serving (boot surroundings) ≡ true
unfolding boot load settings checked refresh ConfigCache.load runs_on get_env get_env_int
    get_env_duration
boot_test = refl

trim_test : trim_slashes "http://host/v1//" ≡ "http://host/v1"
unfolding trim_slashes
trim_test = refl
