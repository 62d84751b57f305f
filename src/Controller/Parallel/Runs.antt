-- ===== src/Controller/Parallel/Runs.antt =====
-- Every run of the pool ends, whatever the scheduler chooses.
use aws_multi_eni_controller.Prelude.{
  ℕ, zero, suc, ◌≤◌, ◌<◌, ◌≡◌, ◌∙◌, refl, Bool, List, [], ◌∷◌, none, some, inl, inr, arith, length,
  Option-cases, Bool-cases,
}
use aws_multi_eni_controller.Prelude.State.{Call}
use aws_multi_eni_controller.Controller.Parallel.{
  Pool, Choice, take, finish, drop, leave, pick, finish_one, drop_one, take_one, leave_one,
  busy_step, pool_step, some_choice, open_choice, otherwise, scheduled, run_pool, pool_measure,
}

pub length-pick {ℓ} :
    {A : Type ℓ} (i : ℕ) (a : A) (rest : List A) → length (pick i a rest).1 ≡ length rest
unfolding pick
length-pick i a [] = refl
length-pick zero a (b ∷ bs) = refl
length-pick (suc i) a (b ∷ bs) = omega (arith, length-pick i b bs)

module _ {A S : Type 0} (cleanup : A → Call S Bool) (is_cancelled : S → Bool) where
  take_one-smaller :
      (pending : List A) (idle : ℕ) (p q : Pool A S)
      → p.pending ≡ pending
      → p.idle ≡ idle
      → take_one cleanup is_cancelled pending idle p ≡ some q
      → pool_measure cleanup is_cancelled q < pool_measure cleanup is_cancelled p
  unfolding take_one pool_measure
  take_one-smaller [] zero p q a b h = cc
  take_one-smaller [] (suc n) p q a b h = cc
  take_one-smaller (x ∷ rest) zero p q a b h = cc
  take_one-smaller (x ∷ rest) (suc n) p q a b h = ground (arith)

  leave_one-smaller :
      (pending : List A) (idle : ℕ) (p q : Pool A S)
      → p.idle ≡ idle
      → leave_one cleanup is_cancelled pending idle p ≡ some q
      → pool_measure cleanup is_cancelled q < pool_measure cleanup is_cancelled p
  unfolding leave_one pool_measure
  leave_one-smaller [] zero p q b h = cc
  leave_one-smaller [] (suc n) p q b h = ground arith
  leave_one-smaller (x ∷ rest) zero p q b h = cc
  leave_one-smaller (x ∷ rest) (suc n) p q b h = ground arith

  finish_step-smaller :
      (i : ℕ) (busy : List A) (p q : Pool A S)
      → p.busy ≡ busy
      → busy_step cleanup is_cancelled (finish_one cleanup is_cancelled) i busy p ≡ some q
      → pool_measure cleanup is_cancelled q < pool_measure cleanup is_cancelled p
  unfolding busy_step finish_one pool_measure
  finish_step-smaller i [] p q b h = cc
  finish_step-smaller i (a ∷ rest) p q b h = ground (arith, length-pick i a rest)

  drop_step-smaller :
      (i : ℕ) (busy : List A) (p q : Pool A S)
      → p.busy ≡ busy
      → busy_step cleanup is_cancelled (drop_one cleanup is_cancelled) i busy p ≡ some q
      → pool_measure cleanup is_cancelled q < pool_measure cleanup is_cancelled p
  unfolding busy_step drop_one pool_measure
  drop_step-smaller i [] p q b h = cc
  drop_step-smaller i (a ∷ rest) p q b h = ground (arith, length-pick i a rest)

  pub pool_step-smaller :
      (x : Choice) (p q : Pool A S)
      → pool_step cleanup is_cancelled x p ≡ some q
      → pool_measure cleanup is_cancelled q < pool_measure cleanup is_cancelled p
  unfolding pool_step
  pool_step-smaller take p q h = take_one-smaller p.pending p.idle p q refl refl h
  pool_step-smaller (finish i) p q h = finish_step-smaller i p.busy p q refl h
  pool_step-smaller (drop i) p q h = elim (Bool-cases (is_cancelled p.world)) [
    | inl e ↦ drop_step-smaller i p.busy p q refl (simp e at h)
    | inr e ↦ ground arith
  ]
  pool_step-smaller leave p q h = leave_one-smaller p.pending p.idle p q refl h

  -- A scheduled step is a step of the pool.
  pub scheduled-step :
      (choose : Pool A S → Choice) (p q : Pool A S)
      → scheduled cleanup is_cancelled choose p ≡ some q
      → (x : Choice) × (pool_step cleanup is_cancelled x p ≡ some q)
  unfolding scheduled otherwise
  scheduled-step choose p q h = elim (Option-cases (pool_step cleanup is_cancelled (choose p) p)) [
    | inl e ↦ (open_choice cleanup is_cancelled p.pending p.busy, (rw (e, otherwise) at h))
    | inr (r, e) ↦ (choose p, e ∙ (rw (e, otherwise) at h))
  ]

  -- While a worker is left a step is open.
  open_step :
      (pending busy : List A) (idle : ℕ) (p : Pool A S)
      → p.pending ≡ pending
      → p.busy ≡ busy
      → p.idle ≡ idle
      → pool_step cleanup is_cancelled (open_choice cleanup is_cancelled pending busy) p ≡ none
      → (busy ≡ []) × (idle ≡ 0)
  unfolding pool_step some_choice busy_step take_one leave_one
  open_step [] [] zero p a b c h = (refl, refl)
  open_step [] [] (suc n) p a b c h = ground arith
  open_step [] (x ∷ busy) idle p a b c h = ground arith
  open_step (y ∷ pending) [] zero p a b c h = (refl, refl)
  open_step (y ∷ pending) [] (suc n) p a b c h = ground arith
  open_step (y ∷ pending) (x ∷ busy) idle p a b c h = ground arith

  scheduled-stops :
      (choose : Pool A S → Choice) (p : Pool A S)
      → scheduled cleanup is_cancelled choose p ≡ none
      → (p.busy ≡ []) × (p.idle ≡ 0)
  unfolding scheduled otherwise
  scheduled-stops choose p h = elim (Option-cases (pool_step cleanup is_cancelled (choose p) p)) [
    | inl e ↦ open_step p.pending p.busy p.idle p refl refl refl (rw (e, otherwise) at h)
    | inr (r, e) ↦ absurd (some_none (rw (e, otherwise) at h))
  ]
    where
      some_none : {r : Pool A S} → some r ≡ none → ⊥
      some_none k = cc

  pub scheduled-smaller :
      (choose : Pool A S → Choice) (p q : Pool A S)
      → scheduled cleanup is_cancelled choose p ≡ some q
      → pool_measure cleanup is_cancelled q < pool_measure cleanup is_cancelled p
  scheduled-smaller choose p q h =
      let (x, e) = scheduled-step choose p q h in pool_step-smaller x p q e

  no_worker :
      (p : Pool A S) → pool_measure cleanup is_cancelled p ≤ 0 → (p.busy ≡ []) × (p.idle ≡ 0)
  unfolding pool_measure
  no_worker p h = (nothing p.busy (omega arith), omega arith)
    where
      nothing : (xs : List A) → length xs ≤ 0 → xs ≡ []
      nothing [] k = refl
      nothing (x ∷ xs) k = absurd (omega arith)

  -- The pool stops with no worker left, for every scheduler: `wg.Wait` returns.
  pub run_pool-stops :
      (choose : Pool A S → Choice) (fuel : ℕ) (p : Pool A S)
      → pool_measure cleanup is_cancelled p ≤ fuel
      → let q = run_pool cleanup is_cancelled fuel choose p in (q.busy ≡ []) × (q.idle ≡ 0)
  unfolding run_pool
  run_pool-stops choose zero p h = no_worker p h
  run_pool-stops choose (suc fuel) p h =
      elim (Option-cases (scheduled cleanup is_cancelled choose p)) [
        | inl e ↦ rw (e, run_pool) (scheduled-stops choose p e)
        | inr (q, e) ↦
            rw (e, run_pool)
              (run_pool-stops choose fuel q (omega (arith, scheduled-smaller choose p q e)))
      ]

  -- The invariant rule: what every step keeps holds at the end.
  pub run_pool_inv {κ} :
      (I : Pool A S → Type κ)
      → ((x : Choice) (p q : Pool A S) → pool_step cleanup is_cancelled x p ≡ some q → I p → I q)
      → (choose : Pool A S → Choice) (fuel : ℕ) (p : Pool A S) → I p
      → I (run_pool cleanup is_cancelled fuel choose p)
  unfolding run_pool
  run_pool_inv I keep choose zero p h = h
  run_pool_inv I keep choose (suc fuel) p h =
      elim (Option-cases (scheduled cleanup is_cancelled choose p)) [
        | inl e ↦ rw (e, run_pool) h
        | inr (q, e) ↦
            let (x, step) = scheduled-step choose p q e in
            rw (e, run_pool) (run_pool_inv I keep choose fuel q (keep x p q step h))
      ]
