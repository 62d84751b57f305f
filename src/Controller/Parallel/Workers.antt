-- ===== src/Controller/Parallel/Workers.antt =====
-- The number of workers.
use aws_multi_eni_controller.Prelude.{ℕ, ◌≤◌, arith}
use aws_multi_eni_controller.Prelude.Int.{ℤ, pos, ◌<ℤ◌, ◌≤ℤ◌}
use aws_multi_eni_controller.Controller.Parallel.{calculate_worker_count}

-- For some attachments there is at least one worker and at most one for each attachment, and a
-- positive limit is respected; without one there are at most 3.
pub calculate_worker_count_bounds :
    (limit : ℤ) (n : ℕ)
    → 1 ≤ n
    → (1 ≤ calculate_worker_count limit n)
      × (calculate_worker_count limit n ≤ n)
      × (pos 0 <ℤ limit → pos (calculate_worker_count limit n) ≤ℤ limit)
      × (limit ≤ℤ pos 0 → calculate_worker_count limit n ≤ 3)
unfolding calculate_worker_count
calculate_worker_count_bounds limit n h = (ground arith, ground arith, ground arith, ground arith)
