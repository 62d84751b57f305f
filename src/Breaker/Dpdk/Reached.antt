-- ===== src/Breaker/Dpdk/Reached.antt =====
-- The states that the breaker can reach, whatever calls overlap.
use aws_multi_eni_controller.Prelude.{
  ℕ, ◌+◌, ◌<◌, Bool, true, false, ◌&&◌, ◌≡◌, refl, ◌⊎◌, inl, inr, arith, leb, Bool-cases,
}
use aws_multi_eni_controller.Breaker.Dpdk.{
  DpdkState, state_closed, state_open, state_half_open, DpdkConfig, DpdkBreaker, new_dpdk_breaker,
  is_half_open, is_due, turn, record_success, record_failure, record_dpdk_result, reset_dpdk,
}

-- One locked section of some call.
pub data Step : DpdkBreaker → DpdkBreaker → Type 0 where
  turns : (now : ℕ) (cb : DpdkBreaker) → Step cb (turn now cb)
  records :
      (now : ℕ) (success : Bool) (cb : DpdkBreaker) → Step cb (record_dpdk_result now success cb)
  resets : (cb : DpdkBreaker) → Step cb (reset_dpdk cb)

-- The sections of any calls, in any order.
pub data Reached (start : DpdkBreaker) : DpdkBreaker → Type 0 where
  here : Reached start start
  next : {cb after : DpdkBreaker} → Reached start cb → Step cb after → Reached start after

-- Closed, the failures in a row are fewer than the threshold; half open, so are the successes.
abbrev pub InState : DpdkState → DpdkBreaker → Type 0
InState state_closed cb = (cb.failures < cb.config.failure_threshold) ⊎ (cb.failures ≡ 0)
InState state_half_open cb = (cb.successes < cb.config.success_threshold) ⊎ (cb.successes ≡ 0)
InState state_open cb = Unit

abbrev pub IsBounded : DpdkBreaker → Type 0
IsBounded cb = InState cb.state cb

IsBounded-turn : (now : ℕ) (cb : DpdkBreaker) → IsBounded cb → IsBounded (turn now cb)
unfolding turn
IsBounded-turn now cb h = elim (Bool-cases (is_due now cb)) [
  | inl t ↦ rw (t, turn) (inr refl)
  | inr f ↦ rw (f, turn) h
]

counted :
    (s : DpdkState) (cb : DpdkBreaker)
    → (is_half_open s && leb cb.config.success_threshold (cb.successes + 1)) ≡ false
    → InState s cb
    → InState s (record cb { failures = 0; successes = cb.successes + 1 })
counted state_closed cb f h = inr refl
counted state_half_open cb f h = inl (ground arith)
counted state_open cb f h = tt

failed_once :
    (s : DpdkState) (now : ℕ) (cb : DpdkBreaker)
    → leb cb.config.failure_threshold (cb.failures + 1) ≡ false
    → InState s (record cb { successes = 0; failures = cb.failures + 1; last_fail_time = now })
failed_once state_closed now cb f = inl (ground arith)
failed_once state_half_open now cb f = inr refl
failed_once state_open now cb f = tt

IsBounded-record :
    (now : ℕ) (success : Bool) (cb : DpdkBreaker)
    → IsBounded cb
    → IsBounded (record_dpdk_result now success cb)
unfolding record_dpdk_result record_success record_failure
IsBounded-record now true cb h =
    elim (Bool-cases
      (is_half_open cb.state && leb cb.config.success_threshold (cb.successes + 1))) [
        | inl t ↦ rw (t, record_success) (inr refl)
        | inr f ↦ rw (f, record_success) (counted cb.state cb f h)
      ]
IsBounded-record now false cb h =
    elim (Bool-cases (leb cb.config.failure_threshold (cb.failures + 1))) [
      | inl t ↦ rw (t, record_failure) tt
      | inr f ↦ rw (f, record_failure) (failed_once cb.state now cb f)
    ]

Step-IsBounded : {cb after : DpdkBreaker} → Step cb after → IsBounded cb → IsBounded after
unfolding reset_dpdk
Step-IsBounded (turns now cb) h = IsBounded-turn now cb h
Step-IsBounded (records now success cb) h = IsBounded-record now success cb h
Step-IsBounded (resets cb) h = inr refl

-- In every state that a new breaker reaches through the locked sections of any calls, however they
-- overlap: closed, the failures in a row are fewer than the threshold or none; half open, the successes
-- are fewer than theirs or none.
pub Reached-IsBounded :
    (config : DpdkConfig) (cb : DpdkBreaker) → Reached (new_dpdk_breaker config) cb → IsBounded cb
Reached-IsBounded config cb here = inr refl
Reached-IsBounded config cb (next r s) = Step-IsBounded s (Reached-IsBounded config _ r)
