-- ===== src/Wait.antt =====
-- `wait.ExponentialBackoff` of k8s.io/apimachinery, a library that the repository only calls: a
-- parameter, with its documented behaviour as laws. Delays and jitter do not reach the results; what
-- other parties do meanwhile shows in the next answer of the world.
use aws_multi_eni_controller.Prelude.{ℕ, zero, suc, ◌≡◌, refl}

-- What the condition says: `(true, nil)`, `(false, nil)` or `(_, err)`.
pub data Verdict (E : Type 0) : Type 0 where
  done : Verdict E
  again : Verdict E
  fail : E → Verdict E

-- What the call returns: `nil`, the condition's error or `wait.ErrWaitTimeout`.
pub data Exit (E : Type 0) : Type 0 where
  finished : Exit E
  failed : E → Exit E
  timed_out : Exit E

abbrev pub attempt : {S E : Type 0} → Verdict E × S → (S → Exit E × S) → Exit E × S
attempt (done, s) rest = (finished, s)
attempt (fail e, s) rest = (failed e, s)
attempt (again, s) rest = rest s

pub record Backoff : Type 1 where
  pub run : (S E : Type 0) → ℕ → (S → Verdict E × S) → S → Exit E × S
  pub run_zero : (S E : Type 0) (f : S → Verdict E × S) (s : S) → run S E zero f s ≡ (timed_out, s)
  pub run_suc :
      (S E : Type 0) (n : ℕ) (f : S → Verdict E × S) (s : S)
      → run S E (suc n) f s ≡ attempt (f s) (run S E n f)

-- After one attempt: either the loop is over and `Q` holds, or `I` holds for the next attempt.
abbrev pub Attempted {κ} :
    {S E : Type 0} → (S → Type κ) → (Exit E → S → Type κ) → Verdict E × S → Type κ
Attempted I Q (done, s) = Q finished s
Attempted I Q (fail e, s) = Q (failed e) s
Attempted I Q (again, s) = I s

module _ {κ} (b : Backoff) {S E : Type 0} (I : S → Type κ) (Q : Exit E → S → Type κ) where
  pub attempt_lem :
      (r : Verdict E × S) (rest : S → Exit E × S)
      → Attempted I Q r
      → ((s : S) → I s → Q (rest s).0 (rest s).1)
      → Q (attempt r rest).0 (attempt r rest).1
  attempt_lem (done, s) rest h k = h
  attempt_lem (fail e, s) rest h k = h
  attempt_lem (again, s) rest h k = k s h

  -- The invariant rule of the loop.
  pub run_inv :
      (f : S → Verdict E × S)
      → ((s : S) → I s → Attempted I Q (f s))
      → ((s : S) → I s → Q timed_out s)
      → (n : ℕ) (s : S) → I s
      → Q (b.run S E n f s).0 (b.run S E n f s).1
  run_inv f step last zero s h = rw (b.run_zero S E f s) (last s h)
  run_inv f step last (suc n) s h =
      rw (b.run_suc S E n f s)
        (attempt_lem (f s) (b.run S E n f) (step s h) (λ t k. run_inv f step last n t k))

-- The loop as a function, for evaluation: it meets the laws.
abbrev pub retry_loop : (S E : Type 0) → ℕ → (S → Verdict E × S) → S → Exit E × S
retry_loop S E zero f s = (timed_out, s)
retry_loop S E (suc n) f s = attempt (f s) (retry_loop S E n f)

abbrev pub plain_backoff : Backoff
plain_backoff = record { run = retry_loop; run_zero = λ S E f s. refl; run_suc = λ S E n f s. refl }
