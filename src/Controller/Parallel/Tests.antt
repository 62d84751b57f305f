-- ===== src/Controller/Parallel/Tests.antt =====
-- The worker pool on ENIs that are numbers: the cleanup of one puts it in front of the world.
use aws_multi_eni_controller.Prelude.{
  ℕ, ◌≤◌, ◌≡◌, refl, Bool, true, false, List, [], ◌∷◌, none, inl, inr, arith,
}
use aws_multi_eni_controller.Prelude.State.{Call}
use aws_multi_eni_controller.Controller.Parallel.{
  Pool, Choice, take, run_pool, pool_measure, pool_step, run_workers, scheduled, collect_results,
  start_pool, pick,
}
use aws_multi_eni_controller.Controller.Parallel.Runs.{run_pool-stops}
use aws_multi_eni_controller.Controller.Parallel.Outcome.{In, run_workers-Good}
use aws_multi_eni_controller.Controller.Parallel.Cancelled.{run_workers-abandoned}

abbrev clean : ℕ → Call (List ℕ) Bool
clean n w = (true, n ∷ w)

abbrev never : List ℕ → Bool
never w = false

abbrev always : List ℕ → Bool
always w = true

abbrev take_first : Pool ℕ (List ℕ) → Choice
take_first p = take

abbrev three : List ℕ
three = 7 ∷ 8 ∷ 9 ∷ []

abbrev pool : Pool ℕ (List ℕ)
pool = record { pending = three; idle = 2; busy = []; results = []; world = [] }

within : pool_measure clean never pool ≤ 20
unfolding pool_measure
within = omega arith

run_pool-stops_example :
    let q = run_pool clean never 20 take_first pool in (q.busy ≡ []) × (q.idle ≡ 0)
run_pool-stops_example = run_pool-stops clean never take_first 20 pool within

succeeds : (run_workers clean never take_first none 2 three []).0 ≡ true
unfolding run_workers run_pool scheduled pool_step pool_measure start_pool collect_results pick
succeeds = refl

run_workers-Good_example : In 8 (run_workers clean never take_first none 2 three []).1
run_workers-Good_example =
    run_workers-Good clean never (λ s. refl) (λ a w. In a w) (λ a s h. inl refl) (λ a b s h. inr h)
      take_first none 2 three [] 8 (omega arith) succeeds (inr (inl refl))

run_workers-abandoned_example :
    (choose : Pool ℕ (List ℕ) → Choice) × (run_workers clean always choose none 2 three []
      ≡ (true, []))
run_workers-abandoned_example = run_workers-abandoned clean always 2 three [] refl
