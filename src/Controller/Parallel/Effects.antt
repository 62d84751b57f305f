-- ===== src/Controller/Parallel/Effects.antt =====
-- What every cleanup keeps, the pool keeps.
use aws_multi_eni_controller.Prelude.{
  ℕ, zero, suc, ◌≡◌, Bool, List, [], ◌∷◌, Option, none, some, inl, inr, subst, arith, Bool-cases,
}
use mathlib.Core.Option.{some-injective}
use aws_multi_eni_controller.Prelude.State.{Call}
use aws_multi_eni_controller.Controller.Parallel.{
  Pool, Choice, take, finish, drop, leave, pick, finish_one, drop_one, take_one, leave_one,
  busy_step, pool_step, start_pool, run_workers,
}
use aws_multi_eni_controller.Controller.Parallel.Runs.{run_pool_inv}

module _ {A S : Type 0} (cleanup : A → Call S Bool) (is_cancelled : S → Bool) (P : S → Type 0)
    (keeps : (a : A) (s : S) → P s → P (cleanup a s).1) where
  finish-keeps :
      (i : ℕ) (busy : List A) (p q : Pool A S)
      → busy_step cleanup is_cancelled (finish_one cleanup is_cancelled) i busy p ≡ some q
      → P p.world
      → P q.world
  unfolding busy_step finish_one
  finish-keeps i [] p q h k = cc
  finish-keeps i (a ∷ rest) p q h k =
      subst (λ (r : Pool A S). P r.world) (some-injective _ _ h) (keeps (pick i a rest).0 p.world k)

  drop-keeps :
      (i : ℕ) (busy : List A) (p q : Pool A S)
      → busy_step cleanup is_cancelled (drop_one cleanup is_cancelled) i busy p ≡ some q
      → P p.world
      → P q.world
  unfolding busy_step drop_one
  drop-keeps i [] p q h k = cc
  drop-keeps i (a ∷ rest) p q h k =
      subst (λ (r : Pool A S). P r.world) (some-injective _ _ h) (keeps (pick i a rest).0 p.world k)

  take-keeps :
      (pending : List A) (idle : ℕ) (p q : Pool A S)
      → take_one cleanup is_cancelled pending idle p ≡ some q
      → P p.world
      → P q.world
  unfolding take_one
  take-keeps [] zero p q h k = cc
  take-keeps [] (suc n) p q h k = cc
  take-keeps (a ∷ rest) zero p q h k = cc
  take-keeps (a ∷ rest) (suc n) p q h k =
      subst (λ (r : Pool A S). P r.world) (some-injective _ _ h) k

  leave-keeps :
      (pending : List A) (idle : ℕ) (p q : Pool A S)
      → leave_one cleanup is_cancelled pending idle p ≡ some q
      → P p.world
      → P q.world
  unfolding leave_one
  leave-keeps [] zero p q h k = cc
  leave-keeps [] (suc n) p q h k = subst (λ (r : Pool A S). P r.world) (some-injective _ _ h) k
  leave-keeps (a ∷ rest) zero p q h k = cc
  leave-keeps (a ∷ rest) (suc n) p q h k = elim (Bool-cases (is_cancelled p.world)) [
    | inl e ↦ subst (λ (r : Pool A S). P r.world) (some-injective _ _ (simp e at h)) k
    | inr e ↦ ground arith
  ]

  pool_step-keeps :
      (x : Choice) (p q : Pool A S)
      → pool_step cleanup is_cancelled x p ≡ some q
      → P p.world
      → P q.world
  unfolding pool_step
  pool_step-keeps take p q h k = take-keeps p.pending p.idle p q h k
  pool_step-keeps (finish i) p q h k = finish-keeps i p.busy p q h k
  pool_step-keeps (drop i) p q h k = elim (Bool-cases (is_cancelled p.world)) [
    | inl e ↦ drop-keeps i p.busy p q (simp e at h) k
    | inr e ↦ ground arith
  ]
  pool_step-keeps leave p q h k = leave-keeps p.pending p.idle p q h k

  -- A fact of the world that each cleanup keeps is kept by every run of the pool, cancelled or not.
  pub run_workers-keeps :
      (choose : Pool A S → Choice) (sent : Option (List A)) (workers : ℕ) (attachments : List A)
      (s : S)
      → P s
      → P (run_workers cleanup is_cancelled choose sent workers attachments s).1
  unfolding run_workers start_pool
  run_workers-keeps choose none workers attachments s h =
      run_pool_inv cleanup is_cancelled (λ p. P p.world) pool_step-keeps choose _
        (start_pool cleanup is_cancelled workers attachments s) h
  run_workers-keeps choose (some sent) workers attachments s h =
      run_pool_inv cleanup is_cancelled (λ p. P p.world) pool_step-keeps choose _
        (start_pool cleanup is_cancelled workers sent s) h
