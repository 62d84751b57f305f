-- ===== src/Controller/Parallel/Cancelled.antt =====
-- The pool when the context is done.
use aws_multi_eni_controller.Prelude.{
  ℕ, zero, suc, ◌≡◌, ◌∙◌, refl, Bool, true, List, [], ◌∷◌, none, some, ◌⊎◌, inl, inr, ap, arith,
}
use aws_multi_eni_controller.Prelude.State.{Call}
use aws_multi_eni_controller.Controller.Parallel.{
  Pool, Choice, leave, take_one, leave_one, busy_step, pool_step, some_choice, otherwise, scheduled,
  run_pool, pool_measure, collect_results, start_pool, run_workers,
}

module _ {A S : Type 0} (cleanup : A → Call S Bool) (is_cancelled : S → Bool) where
  -- All workers leave at once.
  abandon : Pool A S → Choice
  abandon p = leave

  leave_one-cancelled :
      (pending : List A) (n : ℕ) (p : Pool A S)
      → is_cancelled p.world ≡ true
      → leave_one cleanup is_cancelled pending (suc n) p ≡ some (record p { idle = n })
  unfolding leave_one
  leave_one-cancelled [] n p h = refl
  leave_one-cancelled (a ∷ rest) n p h = ground arith

  leave_step :
      (n : ℕ) (p : Pool A S)
      → is_cancelled p.world ≡ true
      → p.idle ≡ suc n
      → pool_step cleanup is_cancelled leave p ≡ some (record p { idle = n })
  unfolding pool_step
  leave_step n p h e =
      ap (λ k. leave_one cleanup is_cancelled p.pending k p) e ∙ leave_one-cancelled p.pending n p h

  scheduled-abandon :
      (n : ℕ) (p : Pool A S)
      → is_cancelled p.world ≡ true
      → p.idle ≡ suc n
      → scheduled cleanup is_cancelled abandon p ≡ some (record p { idle = n })
  unfolding scheduled otherwise abandon
  scheduled-abandon n p h e = rw (leave_step n p h e, otherwise)

  none_left :
      (pending : List A) (p : Pool A S)
      → p.idle ≡ 0
      → p.busy ≡ []
      → p.pending ≡ pending
      → scheduled cleanup is_cancelled abandon p ≡ none
  unfolding scheduled otherwise pool_step abandon leave_one take_one busy_step some_choice
  none_left [] p i b e = ground arith
  none_left (a ∷ rest) p i b e = ground arith

  zero_or_suc : (n : ℕ) → (n ≡ 0) ⊎ ((m : ℕ) × (n ≡ suc m))
  zero_or_suc zero = inl refl
  zero_or_suc (suc m) = inr (m, refl)

  run_pool-abandon :
      (fuel : ℕ) (p : Pool A S)
      → is_cancelled p.world ≡ true
      → p.busy ≡ []
      → ((run_pool cleanup is_cancelled fuel abandon p).results ≡ p.results)
        × ((run_pool cleanup is_cancelled fuel abandon p).world ≡ p.world)
  unfolding run_pool
  run_pool-abandon zero p h e = (refl, refl)
  run_pool-abandon (suc fuel) p h e = elim (zero_or_suc p.idle) [
    | inl i ↦ rw (none_left p.pending p i e refl, run_pool) (refl, refl)
    | inr (n, i) ↦
        rw (scheduled-abandon n p h i, run_pool) (run_pool-abandon fuel (record p { idle = n }) h e)
  ]

  -- If the context is done, the workers may all leave before they have taken anything: the parallel
  -- cleanup then reports success, for any attachments, and nothing has been cleaned up.
  pub run_workers-abandoned :
      (workers : ℕ) (attachments : List A) (s : S)
      → is_cancelled s ≡ true
      → (choose : Pool A S → Choice) × (run_workers cleanup is_cancelled choose none workers
            attachments s
          ≡ (true, s))
  unfolding run_workers collect_results
  run_workers-abandoned workers attachments s h = (abandon, ground (arith, stays))
    where
      p : Pool A S
      p = start_pool cleanup is_cancelled workers attachments s

      stays :
          ((run_pool cleanup is_cancelled (pool_measure cleanup is_cancelled p) abandon p).results
            ≡ [])
          × ((run_pool cleanup is_cancelled (pool_measure cleanup is_cancelled p) abandon p).world
              ≡ s)
      stays = unfold start_pool in run_pool-abandon (pool_measure cleanup is_cancelled p) p h refl
