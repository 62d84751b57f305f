-- ===== src/Retry/Category.antt =====
-- The category of an error, by the text of its message, and the strategy of each category.
use Prim.Native.Char.{Char, code}
use aws_multi_eni_controller.Prelude.{
  ℕ, zero, suc, ◌-◌, String, Bool, true, false, ◌&&◌, ◌||◌, List, [], ◌∷◌, Option, none, some,
  if◌then◌else◌, leb, str_contains,
}

pub data ErrorCategory : Type 0 where
  non_retryable throttling transient network resource : ErrorCategory

-- `strings.ToLower` on ASCII: the letter at a place of the alphabet, or else the character itself.
letter : ℕ → String → Char → Char
letter n String.[] c = c
letter zero (String.◌∷◌ x s) c = x
letter (suc n) (String.◌∷◌ x s) c = letter n s c

lower : Char → Char
unfolding letter
lower c =
    if leb 65 (code c) && leb (code c) 90
    then letter (code c - 65) "abcdefghijklmnopqrstuvwxyz" c
    else c

unfoldable pub to_lower : String → String
unfolding lower
to_lower String.[] = String.[]
to_lower (String.◌∷◌ c s) = String.◌∷◌ (lower c) (to_lower s)

abbrev pub contains_any : String → List String → Bool
contains_any message [] = false
contains_any message (k ∷ ks) = str_contains message k || contains_any message ks

abbrev pub is_throttling_error : String → Bool
is_throttling_error m =
    contains_any m
      ("requestlimitexceeded" ∷ "throttling" ∷ "rate limit" ∷ "too many requests" ∷ "slowdown" ∷ [])

abbrev pub is_resource_error : String → Bool
is_resource_error m = contains_any m (
    "invalidnetworkinterfaceid.notfound" ∷ "invalidinstanceid.notfound" ∷ "invalidsubnetid.notfound"
    ∷ "invalidgroupid.notfound" ∷ "resource not found" ∷ "does not exist" ∷ [])

abbrev pub is_network_error : String → Bool
is_network_error m = contains_any m (
    "connection timeout" ∷ "connection refused" ∷ "connection reset" ∷ "network unreachable" ∷ "dns"
    ∷ "host unreachable" ∷ "no route to host" ∷ [])

abbrev pub is_transient_error : String → Bool
is_transient_error m = contains_any m (
    "internal error" ∷ "service unavailable" ∷ "temporary failure" ∷ "try again" ∷ "busy"
    ∷ "conflict" ∷ [])

abbrev pub is_non_retryable_error : String → Bool
is_non_retryable_error m = contains_any m (
    "access denied" ∷ "unauthorized" ∷ "forbidden" ∷ "invalid parameter" ∷ "malformed"
    ∷ "bad request" ∷ "validation" ∷ [])

-- The tests in the order of the code; a text that none of them knows is transient.
abbrev pub category_of : String → ErrorCategory
category_of m =
    if is_throttling_error m
    then throttling
    else if is_resource_error m
    then resource
    else if is_network_error m
    then network
    else if is_transient_error m
    then transient
    else if is_non_retryable_error m
    then non_retryable
    else transient

unfoldable pub categorize_error : Option String → ErrorCategory
categorize_error none = non_retryable
categorize_error (some e) = category_of (to_lower e)

abbrev is_retryable : ErrorCategory → Bool
is_retryable non_retryable = false
is_retryable _ = true

pub default_retryable_errors : Option String → Bool
default_retryable_errors e = is_retryable (categorize_error e)

-- Durations are in nanoseconds, factors and jitters in tenths.
pub record WaitBackoff : Type 0 where
  pub steps : ℕ
  pub duration : ℕ
  pub factor : ℕ
  pub jitter : ℕ

pub record Strategy : Type 0 where
  pub category : ErrorCategory
  pub backoff : WaitBackoff
  pub max_attempts : ℕ

abbrev pub get_retry_strategy : ErrorCategory → Strategy
get_retry_strategy throttling = record {
  category = throttling;
  backoff = record { steps = 8; duration = 2_000_000_000; factor = 25; jitter = 2 };
  max_attempts = 8;
}
get_retry_strategy network = record {
  category = network;
  backoff = record { steps = 6; duration = 500_000_000; factor = 15; jitter = 1 };
  max_attempts = 6;
}
get_retry_strategy resource = record {
  category = resource;
  backoff = record { steps = 4; duration = 1_000_000_000; factor = 20; jitter = 1 };
  max_attempts = 4;
}
get_retry_strategy transient = record {
  category = transient;
  backoff = record { steps = 5; duration = 1_000_000_000; factor = 20; jitter = 1 };
  max_attempts = 5;
}
get_retry_strategy non_retryable = record {
  category = non_retryable;
  backoff = record { steps = 1; duration = 0; factor = 0; jitter = 0 };
  max_attempts = 1;
}

abbrev pub default_backoff : WaitBackoff
default_backoff = record { steps = 5; duration = 1_000_000_000; factor = 20; jitter = 1 }
