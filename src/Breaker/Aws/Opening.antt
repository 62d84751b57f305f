-- ===== src/Breaker/Aws/Opening.antt =====
-- When the breaker opens, and what it lets through.
use aws_multi_eni_controller.Prelude.{
  ℕ, ◌+◌, ◌≤◌, ◌<◌, ◌≡◌, false, ◌⊎◌, List, [], ◌∷◌, arith, if◌then◌else◌, leb, length, some,
}
use aws_multi_eni_controller.Breaker.Aws.{
  closed, open_state, half_open, CircuitBreaker, Request, allow_request, record_result, execute,
  execute_all, is_operation_allowed, new_circuit_breaker, Config,
}

-- `IsOperationAllowed` answers as `allowRequest` would, and an `Execute` runs its function exactly
-- when it is allowed.
pub execute-is_operation_allowed :
    (r : Request) (cb : CircuitBreaker) → (execute r cb).0 ≡ is_operation_allowed r.asked_at cb
unfolding execute allow_request is_operation_allowed
execute-is_operation_allowed r cb = ground arith

-- A call while the breaker is open and the timeout has not passed is refused and changes nothing.
pub execute-open :
    (r : Request) (cb : CircuitBreaker)
    → cb.state ≡ open_state
    → r.asked_at ≤ cb.last_failure_time + cb.config.timeout
    → execute r cb ≡ (false, cb)
unfolding execute allow_request
execute-open r cb h t = ground arith

-- What holds of a closed breaker between calls.
pub record IsValid (cb : CircuitBreaker) : Type 0 where
  pub few_failures :
      cb.state ≡ closed → cb.failure_count ≡ 0 ⊎ (cb.failure_count < cb.config.failure_threshold)
  pub some_failure : cb.state ≡ open_state → 0 < cb.failure_count
  pub few_requests : cb.state ≡ half_open → cb.request_count ≤ cb.config.max_concurrent_requests
  pub few_successes :
      cb.state ≡ half_open → cb.success_count ≡ 0 ⊎ (cb.success_count < cb.config.success_threshold)

pub execute-IsValid : (r : Request) (cb : CircuitBreaker) → IsValid cb → IsValid (execute r cb).1
unfolding execute allow_request record_result
execute-IsValid r cb v = ground arith

execute_all-IsValid :
    (rs : List Request) (cb : CircuitBreaker) → IsValid cb → IsValid (execute_all rs cb)
unfolding execute_all
execute_all-IsValid [] cb v = v
execute_all-IsValid (r ∷ rs) cb v = execute_all-IsValid rs (execute r cb).1 (execute-IsValid r cb v)

-- After any calls of a new breaker: closed with fewer failures in a row than the threshold (or none),
-- open after some failure, half open within both limits.
pub execute_all-new :
    (c : Config) (rs : List Request) → IsValid (execute_all rs (new_circuit_breaker (some c)))
unfolding new_circuit_breaker
execute_all-new c rs = execute_all-IsValid rs _ (ground arith)

-- All calls of the list fail.
abbrev pub failures : List ℕ → List Request
failures [] = []
failures (t ∷ ts) = record { asked_at = t; answered_at = t; success = false } ∷ failures ts

execute-failure :
    (t : ℕ) (cb : CircuitBreaker)
    → cb.state ≡ closed
    → (execute (record { asked_at = t; answered_at = t; success = false }) cb).1 ≡ (
        if leb cb.config.failure_threshold (cb.failure_count + 1)
        then record cb {
          failure_count = cb.failure_count + 1;
          last_failure_time = t;
          state = open_state;
        }
        else record cb { failure_count = cb.failure_count + 1; last_failure_time = t })
unfolding execute allow_request record_result
execute-failure t cb h = ground arith

-- A closed breaker opens with the failure that makes the row as long as the threshold.
pub execute_all-failures :
    (ts : List ℕ) (cb : CircuitBreaker)
    → cb.state ≡ closed
    → cb.failure_count < cb.config.failure_threshold
    → cb.failure_count + length ts ≡ cb.config.failure_threshold
    → (execute_all (failures ts) cb).state ≡ open_state
unfolding execute_all execute allow_request record_result
execute_all-failures [] cb h lt e = ground arith
execute_all-failures (t ∷ []) cb h lt e = ground arith
execute_all-failures (t ∷ u ∷ ts) cb h lt e =
    execute_all-failures (u ∷ ts)
      (execute (record { asked_at = t; answered_at = t; success = false }) cb).1 (ground arith)
      (ground arith) (ground arith)
