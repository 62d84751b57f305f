-- ===== src/Breaker/Tests.antt =====
-- Runs of the circuit breaker on concrete calls.
use aws_multi_eni_controller.Prelude.{◌≡◌, ◌≢◌, refl, true, [], ◌∷◌, some, arith}
use aws_multi_eni_controller.Breaker.Aws.{
  closed, open_state, half_open, CircuitBreaker, Request, default_config, new_circuit_breaker,
  execute_all,
}
use aws_multi_eni_controller.Breaker.Aws.Opening.{IsValid, execute_all-new}
use aws_multi_eni_controller.Breaker.Aws.Recovery.{
  successes, execute_all-successes, execute_all-never_closes,
}

-- The default settings, one failure before opening.
abbrev fresh : CircuitBreaker
fresh = record {
  config = default_config;
  state = closed;
  failure_count = 4;
  success_count = 0;
  last_failure_time = 1;
  request_count = 0;
}

abbrev opened : CircuitBreaker
opened = record fresh { state = open_state; failure_count = 5 }

-- The same with room for three requests.
abbrev roomy : CircuitBreaker
roomy = record opened { config = record default_config { max_concurrent_requests = 3 } }

abbrev probing : CircuitBreaker
probing = record opened { state = half_open; request_count = 1; success_count = 2 }

abbrev call : Request
call = record { asked_at = 40_000_000_000; answered_at = 40_000_000_001; success = true }

abbrev early_call : Request
early_call = record { asked_at = 5; answered_at = 6; success = true }

execute_all-new_example :
    IsValid (execute_all (call ∷ early_call ∷ []) (new_circuit_breaker (some default_config)))
execute_all-new_example = execute_all-new default_config (call ∷ early_call ∷ [])

execute_all-successes_example :
    (execute_all (successes (40_000_000_000 ∷ 40_000_000_001 ∷ 40_000_000_002 ∷ [])) roomy).state
    ≡ closed
execute_all-successes_example =
    execute_all-successes 40_000_000_000 (40_000_000_001 ∷ 40_000_000_002 ∷ []) roomy refl refl
      (omega arith) (omega arith)

execute_all-never_closes_example : (execute_all (call ∷ call ∷ call ∷ []) opened).state ≢ closed
execute_all-never_closes_example =
    execute_all-never_closes (call ∷ call ∷ call ∷ []) opened refl (omega arith)
