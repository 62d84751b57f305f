-- ===== src/Retry/Tests.antt =====
-- Retries of functions whose world counts the calls.
use aws_multi_eni_controller.Prelude.{
  ℕ, suc, ◌≡◌, ◌≢◌, refl, sym, ◌∙◌, String, Bool, true, false, Option, none, some, str_contains,
}
use aws_multi_eni_controller.Prelude.State.{Call}
use aws_multi_eni_controller.Wait.{plain_backoff}
use aws_multi_eni_controller.Retry.Category.{non_retryable, throttling, to_lower, categorize_error}
use aws_multi_eni_controller.Retry.Loop.{with_categorized_retry, with_categorized_retry-exhausted}

abbrev throttled : Call ℕ (Bool × Option String)
throttled n = ((false, some "Throttling: Rate exceeded"), suc n)

abbrev refused : Call ℕ (Bool × Option String)
refused n = ((false, some "Access Denied"), suc n)

abbrev works : Call ℕ (Bool × Option String)
works n = ((true, none), suc n)

is_throttling : categorize_error (some "Throttling: Rate exceeded") ≡ throttling
unfolding categorize_error to_lower str_contains
is_throttling = refl

throttling_is_other : throttling ≢ non_retryable
throttling_is_other h = cc

is_refusal : categorize_error (some "Access Denied") ≡ non_retryable
unfolding categorize_error to_lower str_contains
is_refusal = refl

with_categorized_retry-exhausted_example : with_categorized_retry plain_backoff throttled 0 ≡ (
  some (categorize_error (some "Throttling: Rate exceeded"), some "Throttling: Rate exceeded"),
  5,
)
with_categorized_retry-exhausted_example =
    with_categorized_retry-exhausted plain_backoff throttled "Throttling: Rate exceeded" 0
      (λ v. refl) (λ h. throttling_is_other (sym is_throttling ∙ h))

succeeds : (with_categorized_retry plain_backoff works 0).0 ≡ none
unfolding with_categorized_retry
succeeds = refl

suc_not_zero : (v : ℕ) → suc v ≢ 0
suc_not_zero v h = cc
