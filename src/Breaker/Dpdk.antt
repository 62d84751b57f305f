-- ===== src/Breaker/Dpdk.antt =====
-- The circuit breaker round DPDK operations (pkg/eni-manager/dpdk/circuit_breaker.go). canExecute gives
-- its lock back twice; what other calls do in between is the parameter `others`.
pub mod Reached
mod Tests
use aws_multi_eni_controller.Prelude.{ℕ, ◌+◌, Bool, true, false, ◌&&◌, if◌then◌else◌, ltb, leb}

pub data DpdkState : Type 0 where
  state_closed state_open state_half_open : DpdkState

pub record DpdkConfig : Type 0 where
  pub failure_threshold : ℕ
  pub success_threshold : ℕ
  pub timeout : ℕ

abbrev pub default_dpdk_config : DpdkConfig
default_dpdk_config = record {
  failure_threshold = 5;
  success_threshold = 3;
  timeout = 30_000_000_000;
}

pub record DpdkBreaker : Type 0 where
  pub config : DpdkConfig
  pub state : DpdkState
  pub failures : ℕ
  pub successes : ℕ
  pub last_fail_time : ℕ

abbrev pub new_dpdk_breaker : DpdkConfig → DpdkBreaker
new_dpdk_breaker config = record {
  config = config;
  state = state_closed;
  failures = 0;
  successes = 0;
  last_fail_time = 0;
}

abbrev pub is_open : DpdkState → Bool
is_open state_open = true
is_open _ = false

abbrev pub is_half_open : DpdkState → Bool
is_half_open state_half_open = true
is_half_open _ = false

-- Open, and the timeout has passed.
abbrev pub is_due : ℕ → DpdkBreaker → Bool
is_due now cb = is_open cb.state && ltb (cb.last_fail_time + cb.config.timeout) now

-- Under the write lock: the test is made again.
unfoldable pub turn : ℕ → DpdkBreaker → DpdkBreaker
turn now cb = if is_due now cb then record cb { state = state_half_open; successes = 0 } else cb

can_execute_in : (DpdkBreaker → DpdkBreaker) → DpdkState → ℕ → DpdkBreaker → Bool × DpdkBreaker
can_execute_in others state_closed now cb = (true, cb)
can_execute_in others state_half_open now cb = (true, cb)
can_execute_in others state_open now cb =
    let after = others (turn now (others cb)) in
    if is_due now cb then (is_half_open after.state, after) else (false, cb)

unfoldable pub can_execute : (DpdkBreaker → DpdkBreaker) → ℕ → DpdkBreaker → Bool × DpdkBreaker
unfolding can_execute_in
can_execute others now cb = can_execute_in others cb.state now cb

record_success : DpdkBreaker → DpdkBreaker
record_success cb =
    if is_half_open cb.state && leb cb.config.success_threshold (cb.successes + 1)
    then record cb { state = state_closed; failures = 0; successes = 0 }
    else record cb { failures = 0; successes = cb.successes + 1 }

record_failure : ℕ → DpdkBreaker → DpdkBreaker
record_failure now cb =
    if leb cb.config.failure_threshold (cb.failures + 1)
    then record cb {
      state = state_open;
      successes = 0;
      failures = cb.failures + 1;
      last_fail_time = now;
    }
    else record cb { successes = 0; failures = cb.failures + 1; last_fail_time = now }

unfoldable pub record_dpdk_result : ℕ → Bool → DpdkBreaker → DpdkBreaker
unfolding record_success record_failure
record_dpdk_result now success cb = if success then record_success cb else record_failure now cb

unfoldable pub reset_dpdk : DpdkBreaker → DpdkBreaker
reset_dpdk cb = record cb { state = state_closed; failures = 0; successes = 0; last_fail_time = 0 }
