-- ===== src/Startup.antt =====
-- The probes of gateway/cmd/gateway/main.go.
pub mod Waiting
pub mod Boot
use budget_governor.Prelude.{ℕ, zero, suc, Bool, true, false, if◌then◌else◌}
use budget_governor.Prelude.Int.{ℤ, pos}
use budget_governor.Prelude.{String}

-- The status, and the reason of one that is not ready.
pub data Readiness : Type 0 where
  ready : Readiness
  unavailable : String → Readiness

unfoldable pub readiness_status : Readiness → ℤ
readiness_status ready = pos 200
readiness_status (unavailable reason) = pos 503

-- `readinessHandler`, with the answers of the two pings.
unfoldable pub readiness_handler : Bool → Bool → Readiness
readiness_handler postgres redis =
    if postgres
    then (if redis then ready else unavailable "redis unavailable")
    else unavailable "postgres unavailable"

-- How a wait ends: at a ping that is answered, when the context is done behind a ping, or after the
-- last attempt; with the number of pings before. The caller goes on in any case.
pub data Wait : Type 0 where
  reached interrupted gave_up : ℕ → Wait

-- `waitForPostgres` and `waitForRedis`: whether the i-th ping is answered, and whether the context is
-- done behind it.
module _ (ping interrupts : ℕ → Bool) where
  unfoldable pub wait_from : ℕ → ℕ → Wait
  wait_from zero i = gave_up i
  wait_from (suc left) i =
      let rest = wait_from left (suc i) in
      if ping i then reached i else (if interrupts i then interrupted i else rest)

  unfoldable pub wait_for : Wait
  wait_for = wait_from 30 0
