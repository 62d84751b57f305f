-- ===== src/Controller/Parallel.antt =====
-- The worker pool of pkg/controller/parallel_cleanup.go. A step of the pool is what one goroutine does
-- between two channel operations. Which goroutine moves is up to a scheduler, any function of the
-- pool: it stands for the runtime's choices, among them those of a `select` with several cases ready.
-- The channels are buffered for all attachments, so a send never blocks.
pub mod Workers
pub mod Runs
pub mod Outcome
pub mod Cancelled
pub mod Effects
mod Tests
use aws_multi_eni_controller.Prelude.{
  ℕ, zero, suc, ◌+◌, ◌*◌, ◌/◌, String, Bool, true, false, ◌&&◌, ◌||◌, not, List, [], ◌∷◌, ◌++◌,
  Option, none, some, if◌then◌else◌, ltb, leb, length,
}
use aws_multi_eni_controller.Prelude.Int.{ℤ, pos, leb_ℤ, pos_part}
use aws_multi_eni_controller.Prelude.State.{Call}

-- `min` and `max` of the file.
abbrev pub min : ℕ → ℕ → ℕ
min a b = if ltb a b then a else b

abbrev pub max : ℕ → ℕ → ℕ
max a b = if ltb b a then a else b

-- `calculateWorkerCount`; a limit of 0 or less means 3.
unfoldable pub calculate_worker_count : ℤ → ℕ → ℕ
calculate_worker_count max_concurrent_eni_cleanup attachment_count =
    if ltb attachment_count workers then attachment_count else workers
  where
    max_concurrent : ℕ
    max_concurrent =
        if leb_ℤ max_concurrent_eni_cleanup (pos 0) then 3 else pos_part max_concurrent_eni_cleanup

    workers : ℕ
    workers = min max_concurrent (max 1 (attachment_count / 2))

-- `pending` is the work channel, `idle` counts the workers at their first `select`, `busy` holds the
-- attachments that workers have taken, `results` is the result channel, each result with its
-- attachment, which the channel does not carry.
pub record Pool (A S : Type 0) : Type 0 where
  pub pending : List A
  pub idle : ℕ
  pub busy : List A
  pub results : List (A × Bool)
  pub world : S

-- `take`: an idle worker receives an attachment. `finish i`: the worker with the i-th busy attachment
-- cleans up and sends the result. `drop i`: it cleans up and then sees the context done.
-- `leave`: an idle worker sees the closed channel drained, or the context done.
pub data Choice : Type 0 where
  take : Choice
  finish : ℕ → Choice
  drop : ℕ → Choice
  leave : Choice

-- The i-th of a nonempty list, and the others; past the end, the first.
unfoldable pub pick {ℓ} : {A : Type ℓ} → ℕ → A → List A → A × List A
pick i a [] = (a, [])
pick zero a (b ∷ bs) = (a, b ∷ bs)
pick (suc i) a (b ∷ bs) = let r = pick i b bs in (r.0, a ∷ r.1)

module _ {A S : Type 0} (cleanup : A → Call S Bool) (is_cancelled : S → Bool) where
  finish_one : ℕ → A → List A → Pool A S → Pool A S
  finish_one i a rest p =
      let chosen = pick i a rest in
      let r = cleanup chosen.0 p.world in
      record p {
        idle = suc p.idle;
        busy = chosen.1;
        results = p.results ++ (chosen.0, r.0) ∷ [];
        world = r.1;
      }

  drop_one : ℕ → A → List A → Pool A S → Pool A S
  drop_one i a rest p =
      let chosen = pick i a rest in
      record p { busy = chosen.1; world = (cleanup chosen.0 p.world).1 }

  take_one : List A → ℕ → Pool A S → Option (Pool A S)
  take_one (a ∷ rest) (suc n) p = some (record p { pending = rest; idle = n; busy = a ∷ p.busy })
  take_one _ _ p = none

  leave_one : List A → ℕ → Pool A S → Option (Pool A S)
  leave_one [] (suc n) p = some (record p { idle = n })
  leave_one (a ∷ rest) (suc n) p =
      if is_cancelled p.world then some (record p { idle = n }) else none
  leave_one _ _ p = none

  busy_step : (ℕ → A → List A → Pool A S → Pool A S) → ℕ → List A → Pool A S → Option (Pool A S)
  busy_step act i [] p = none
  busy_step act i (a ∷ rest) p = some (act i a rest p)

  -- A choice that is not open to the pool is `none`.
  unfoldable pub pool_step : Choice → Pool A S → Option (Pool A S)
  unfolding finish_one drop_one take_one leave_one busy_step
  pool_step take p = take_one p.pending p.idle p
  pool_step (finish i) p = busy_step finish_one i p.busy p
  pool_step (drop i) p = if is_cancelled p.world then busy_step drop_one i p.busy p else none
  pool_step leave p = leave_one p.pending p.idle p

  -- A step that is open as long as a worker is left.
  some_choice : List A → Choice → Choice
  some_choice [] c = c
  some_choice (a ∷ rest) c = finish 0

  abbrev open_choice : List A → List A → Choice
  open_choice [] busy = some_choice busy leave
  open_choice (a ∷ rest) busy = some_choice busy take

  otherwise : {B : Type 0} → Option B → Option B → Option B
  otherwise (some b) d = some b
  otherwise none d = d

  -- The scheduler's choice, or else one that is open.
  unfoldable pub scheduled : (Pool A S → Choice) → Pool A S → Option (Pool A S)
  unfolding otherwise some_choice
  scheduled choose p =
      otherwise (pool_step (choose p) p) (pool_step (open_choice p.pending p.busy) p)

  -- `wg.Wait()`: until no worker is left.
  unfoldable pub run_pool : ℕ → (Pool A S → Choice) → Pool A S → Pool A S
  run_pool zero choose p = p
  run_pool (suc fuel) choose p = elim (scheduled choose p) [
    | none ↦ p
    | some q ↦ run_pool fuel choose q
  ]

  -- Every step makes it smaller.
  unfoldable pub pool_measure : Pool A S → ℕ
  pool_measure p = 3 * length p.pending + 2 * length p.busy + p.idle

  -- `collectResults`
  unfoldable pub collect_results : List (A × Bool) → Bool
  collect_results [] = true
  collect_results ((a, success) ∷ rest) = success && collect_results rest

  unfoldable pub start_pool : ℕ → List A → S → Pool A S
  start_pool workers attachments w = record {
    pending = attachments;
    idle = workers;
    busy = [];
    results = [];
    world = w;
  }

  -- The part of `parallelCleanupENIs` for two attachments or more. `sent` is the number of
  -- attachments that `sendWorkToWorkers` has sent when it sees the context done, if it does.
  unfoldable pub run_workers : (Pool A S → Choice) → Option (List A) → ℕ → List A → Call S Bool
  unfolding run_pool scheduled
  run_workers choose (some sent) workers attachments w =
      let p = start_pool workers sent w in (false, (run_pool (pool_measure p) choose p).world)
  run_workers choose none workers attachments w =
      let p = start_pool workers attachments w in
      let q = run_pool (pool_measure p) choose p in (collect_results q.results, q.world)
