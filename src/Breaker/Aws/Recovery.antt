-- ===== src/Breaker/Aws/Recovery.antt =====
-- How a breaker that is open closes again, and when it cannot.
use aws_multi_eni_controller.Prelude.{
  ℕ, ◌+◌, ◌≤◌, ◌<◌, ◌≡◌, ◌≢◌, refl, true, List, [], ◌∷◌, arith, length,
}
use aws_multi_eni_controller.Breaker.Aws.{
  closed, open_state, half_open, CircuitBreaker, Request, has_timed_out, allow_request,
  record_result, execute, execute_all,
}

-- All calls of the list succeed.
abbrev pub successes : List ℕ → List Request
successes [] = []
successes (t ∷ ts) = record { asked_at = t; answered_at = t; success = true } ∷ successes ts

-- Half open, with calls left for the successes that are missing.
half_open-successes :
    (ts : List ℕ) (cb : CircuitBreaker)
    → cb.state ≡ half_open
    → cb.success_count < cb.config.success_threshold
    → cb.success_count + length ts ≡ cb.config.success_threshold
    → cb.request_count + length ts ≤ cb.config.max_concurrent_requests
    → (execute_all (successes ts) cb).state ≡ closed
unfolding execute_all execute allow_request record_result
half_open-successes [] cb h lt e m = ground arith
half_open-successes (t ∷ []) cb h lt e m = ground arith
half_open-successes (t ∷ u ∷ ts) cb h lt e m =
    half_open-successes (u ∷ ts)
      (execute (record { asked_at = t; answered_at = t; success = true }) cb).1 (ground arith)
      (ground arith) (ground arith) (ground arith)

-- An open breaker whose timeout has passed closes after as many successes in a row as the success
-- threshold, if that is at most one more than `MaxConcurrentRequests`.
pub execute_all-successes :
    (t : ℕ) (ts : List ℕ) (cb : CircuitBreaker)
    → cb.state ≡ open_state
    → has_timed_out t cb ≡ true
    → length (t ∷ ts) ≡ cb.config.success_threshold
    → cb.config.success_threshold ≤ cb.config.max_concurrent_requests + 1
    → (execute_all (successes (t ∷ ts)) cb).state ≡ closed
unfolding execute_all execute allow_request record_result
execute_all-successes t [] cb h o e m = ground arith
execute_all-successes t (u ∷ ts) cb h o e m =
    half_open-successes (u ∷ ts)
      (execute (record { asked_at = t; answered_at = t; success = true }) cb).1 (ground arith)
      (ground arith) (ground arith) (ground arith)

-- What a breaker keeps that has opened and whose limit of requests is too low.
record IsStuck (cb : CircuitBreaker) : Type 0 where
  limit : cb.config.max_concurrent_requests + 1 < cb.config.success_threshold
  not_closed : cb.state ≢ closed
  few_requests : cb.state ≡ half_open → cb.request_count ≤ cb.config.max_concurrent_requests
  few_successes : cb.state ≡ half_open → cb.success_count ≤ cb.request_count + 1

execute-IsStuck : (r : Request) (cb : CircuitBreaker) → IsStuck cb → IsStuck (execute r cb).1
unfolding execute allow_request record_result
execute-IsStuck r cb v = ground arith

execute_all-IsStuck :
    (rs : List Request) (cb : CircuitBreaker) → IsStuck cb → IsStuck (execute_all rs cb)
unfolding execute_all
execute_all-IsStuck [] cb v = v
execute_all-IsStuck (r ∷ rs) cb v = execute_all-IsStuck rs (execute r cb).1 (execute-IsStuck r cb v)

-- If the success threshold is more than `MaxConcurrentRequests` + 1, an open breaker never closes
-- again, whatever calls are made one after the other.
pub execute_all-never_closes :
    (rs : List Request) (cb : CircuitBreaker)
    → cb.state ≡ open_state
    → cb.config.max_concurrent_requests + 1 < cb.config.success_threshold
    → (execute_all rs cb).state ≢ closed
execute_all-never_closes rs cb h m = (execute_all-IsStuck rs cb (ground arith)).not_closed

-- A half open breaker that has let through as many calls as it may refuses every later call and
-- stays as it is.
pub execute_all-half_open :
    (rs : List Request) (cb : CircuitBreaker)
    → cb.state ≡ half_open
    → cb.config.max_concurrent_requests ≤ cb.request_count
    → execute_all rs cb ≡ cb
unfolding execute_all execute allow_request
execute_all-half_open [] cb h m = refl
execute_all-half_open (r ∷ rs) cb h m = ground (arith, execute_all-half_open rs cb h m)
