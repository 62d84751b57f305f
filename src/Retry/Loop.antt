-- ===== src/Retry/Loop.antt =====
-- `WithCategorizedRetry` over the back-off loop.
use aws_multi_eni_controller.Prelude.{
  ℕ, zero, suc, ◌≡◌, ◌≢◌, ◌∙◌, refl, sym, ap, String, Bool, true, false, Option, none, some,
}
use mathlib.Core.Option.{some-injective, none-ne-some}
use aws_multi_eni_controller.Prelude.State.{Call}
use aws_multi_eni_controller.Wait.{
  Verdict, done, again, fail, Exit, finished, failed, timed_out, Backoff, attempt, Attempted,
  run_inv,
}
use aws_multi_eni_controller.Retry.Category.{
  ErrorCategory, non_retryable, throttling, transient, network, resource, categorize_error,
  default_backoff,
}

-- What the closure captures: `lastErr`, `lastCategory` and the world.
pub record Tried (W : Type 0) : Type 0 where
  pub last_err : Option String
  pub last_category : ErrorCategory
  pub world : W

-- By the category of the error: the loop ends for a non-retryable one and goes on for the others.
on_error : {W : Type 0} → ErrorCategory → String → W → Verdict String × Tried W
on_error non_retryable e w =
    (fail e, record { last_err = some e; last_category = non_retryable; world = w })
on_error throttling e w =
    (again, record { last_err = some e; last_category = throttling; world = w })
on_error transient e w = (again, record { last_err = some e; last_category = transient; world = w })
on_error network e w = (again, record { last_err = some e; last_category = network; world = w })
on_error resource e w = (again, record { last_err = some e; last_category = resource; world = w })

-- By what the function answered: `(_, err)`, `(true, nil)` or `(false, nil)`.
on_answer : {W : Type 0} → Bool × Option String → W → Tried W → Verdict String × Tried W
unfolding on_error
on_answer (finished_now, some e) w t = on_error (categorize_error (some e)) e w
on_answer (true, none) w t = (done, record t { world = w })
on_answer (false, none) w t = (again, record t { world = w })

-- `nil`, or the category and the error that the message wraps.
ended : {W : Type 0} → Exit String × Tried W → Option (ErrorCategory × Option String) × W
ended (finished, t) = (none, t.world)
ended (failed e, t) = (some (t.last_category, t.last_err), t.world)
ended (timed_out, t) = (some (t.last_category, t.last_err), t.world)

on_answer-error :
    {W : Type 0} (r : Bool × Option String) (e : String) (w : W) (t : Tried W)
    → r.1 ≡ some e
    → on_answer r w t ≡ on_error (categorize_error (some e)) e w
unfolding on_answer
on_answer-error (d, some x) e w t h =
    ap (λ y. on_error (categorize_error (some y)) y w) (some-injective x e h)
on_answer-error (d, none) e w t h = absurd (none-ne-some e h)

-- At the end of the loop: with no error the fact holds.
abbrev Ends : {W : Type 0} → (W → Type 0) → Exit String → Tried W → Type 0
Ends P finished t = P t.world
Ends P (failed e) t = Unit
Ends P timed_out t = Unit

on_error-Ends :
    {W : Type 0} (P : W → Type 0) (k : ErrorCategory) (e : String) (w : W)
    → Attempted (λ t. Unit) (Ends P) (on_error k e w)
unfolding on_error
on_error-Ends P non_retryable e w = tt
on_error-Ends P throttling e w = tt
on_error-Ends P transient e w = tt
on_error-Ends P network e w = tt
on_error-Ends P resource e w = tt

on_answer-Ends :
    {W : Type 0} (P : W → Type 0) (r : Bool × Option String) (w : W) (t : Tried W)
    → (r ≡ (true, none) → P w)
    → Attempted (λ t. Unit) (Ends P) (on_answer r w t)
unfolding on_answer
on_answer-Ends P (d, some e) w t h = on_error-Ends P (categorize_error (some e)) e w
on_answer-Ends P (true, none) w t h = h refl
on_answer-Ends P (false, none) w t h = tt

ended-holds :
    {W : Type 0} (P : W → Type 0) (x : Exit String × Tried W)
    → Ends P x.0 x.1
    → (ended x).0 ≡ none
    → P (ended x).1
unfolding ended
ended-holds P (finished, t) h k = h
ended-holds P (failed e, t) h k = absurd (none-ne-some _ (sym k))
ended-holds P (timed_out, t) h k = absurd (none-ne-some _ (sym k))

module _ {W : Type 0} (b : Backoff) (fn : Call W (Bool × Option String)) where
  try_once : Tried W → Verdict String × Tried W
  unfolding on_answer
  try_once t = let r = fn t.world in on_answer r.0 r.1 t

  unfoldable pub with_categorized_retry : W → Option (ErrorCategory × Option String) × W
  unfolding try_once ended
  with_categorized_retry w = ended (
      b.run (Tried W) String default_backoff.steps try_once
        (record { last_err = none; last_category = non_retryable; world = w }))

  -- The world after some calls of the function.
  abbrev pub called : ℕ → W → W
  called zero w = w
  called (suc n) w = called n (fn w).1

  on_error-again :
      (k : ErrorCategory) (e : String) (w : W)
      → k ≢ non_retryable
      → on_error k e w ≡ (again, record { last_err = some e; last_category = k; world = w })
  unfolding on_error
  on_error-again non_retryable e w n = absurd (n refl)
  on_error-again throttling e w n = refl
  on_error-again transient e w n = refl
  on_error-again network e w n = refl
  on_error-again resource e w n = refl

  try_once-again :
      (e : String) (t : Tried W)
      → (fn t.world).0.1 ≡ some e
      → categorize_error (some e) ≢ non_retryable
      → try_once t ≡ (
        again,
        record {
          last_err = some e;
          last_category = categorize_error (some e);
          world = (fn t.world).1;
        },
      )
  unfolding try_once
  try_once-again e t h n =
      on_answer-error (fn t.world).0 e (fn t.world).1 t h
      ∙ on_error-again (categorize_error (some e)) e (fn t.world).1 n

  try_once-fail :
      (e : String) (t : Tried W)
      → (fn t.world).0.1 ≡ some e
      → categorize_error (some e) ≡ non_retryable
      → try_once t ≡ (
        fail e,
        record { last_err = some e; last_category = non_retryable; world = (fn t.world).1 },
      )
  unfolding try_once on_error
  try_once-fail e t h k =
      on_answer-error (fn t.world).0 e (fn t.world).1 t h ∙ ap (λ x. on_error x e (fn t.world).1) k

  run-again :
      (e : String)
      → ((v : W) → (fn v).0.1 ≡ some e)
      → categorize_error (some e) ≢ non_retryable
      → (n : ℕ) (t : Tried W)
      → b.run (Tried W) String (suc n) try_once t ≡ (
        timed_out,
        record {
          last_err = some e;
          last_category = categorize_error (some e);
          world = called (suc n) t.world;
        },
      )
  run-again e h k zero t =
      b.run_suc (Tried W) String zero try_once t
      ∙ ap (λ r. attempt r (b.run (Tried W) String zero try_once))
          (try_once-again e t (h t.world) k)
      ∙ b.run_zero (Tried W) String try_once _
  run-again e h k (suc n) t =
      b.run_suc (Tried W) String (suc n) try_once t
      ∙ ap (λ r. attempt r (b.run (Tried W) String (suc n) try_once))
          (try_once-again e t (h t.world) k)
      ∙ run-again e h k n _

  -- A function that answers with the same retryable error at every call is called five times, whatever
  -- the category of the error, and the result is that error with its category.
  pub with_categorized_retry-exhausted :
      (e : String) (w : W)
      → ((v : W) → (fn v).0.1 ≡ some e)
      → categorize_error (some e) ≢ non_retryable
      → with_categorized_retry w ≡ (some (categorize_error (some e), some e), called 5 w)
  unfolding with_categorized_retry ended
  with_categorized_retry-exhausted e w h n = ap ended (run-again e h n 4 _)

  -- A non-retryable error at the first call ends the loop: the function is called once.
  pub with_categorized_retry-non_retryable :
      (e : String) (w : W)
      → (fn w).0.1 ≡ some e
      → categorize_error (some e) ≡ non_retryable
      → with_categorized_retry w ≡ (some (non_retryable, some e), called 1 w)
  unfolding with_categorized_retry ended
  with_categorized_retry-non_retryable e w h k = ap ended (
      b.run_suc (Tried W) String 4 try_once _
      ∙ ap (λ r. attempt r (b.run (Tried W) String 4 try_once)) (try_once-fail e _ h k))

  -- If the retries report success, what a call that answers "done" without an error establishes holds
  -- at the end.
  pub with_categorized_retry-success :
      (P : W → Type 0) (w : W)
      → ((v : W) → (fn v).0 ≡ (true, none) → P (fn v).1)
      → (with_categorized_retry w).0 ≡ none
      → P (with_categorized_retry w).1
  unfolding with_categorized_retry
  with_categorized_retry-success P w establishes h =
      ended-holds P _
        (run_inv b (λ t. Unit) (Ends P) try_once (λ t u. step t) (λ t u. tt) default_backoff.steps _
          tt)
        h
    where
      step : (t : Tried W) → Attempted (λ t. Unit) (Ends P) (try_once t)
      step t =
          unfold try_once in
          (on_answer-Ends P (fn t.world).0 (fn t.world).1 t (establishes t.world))
