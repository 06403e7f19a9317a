-- ===== src/Provider/Error.antt =====
-- src/provider/error.rs: the kinds of provider errors, and how an HTTP answer is classified.
-- `contains` is the standard library's substring test, and `code` the error code that was read
-- from the body.
use dtcoder_test.Prelude.{
  ℕ, ◌≡◌, String, Bool, true, false, ◌&&◌, ◌||◌, Option, none, some, arith, leb, ◌==◌,
  if◌then◌else◌,
}

pub data TimeoutPhase : Type 0 where
  connect first_event stream_idle overall : TimeoutPhase

pub data ProviderErrorKind : Type 0 where
  auth access_denied rate_limit quota_exceeded invalid_request : ProviderErrorKind
  context_overflow content_policy : ProviderErrorKind
  timeout : TimeoutPhase → ProviderErrorKind
  transport server protocol empty_completion reasoning_only : ProviderErrorKind
  output_truncated cancelled : ProviderErrorKind

-- `code.as_deref().is_some_and(|c| c.contains(word))`
abbrev pub code_contains : (String → String → Bool) → Option String → String → Bool
code_contains contains none word = false
code_contains contains (some code) word = contains code word

-- The `match status.as_u16()` of `from_http`.
pub from_http_kind : (String → String → Bool) → ℕ → Option String → ProviderErrorKind
from_http_kind contains status code =
    if status == 401
    then auth
    else if status == 403
    then access_denied
    else if status == 429 && code_contains contains code "quota"
    then quota_exceeded
    else if status == 429
    then rate_limit
    else if status == 400
        && (code_contains contains code "context" || code_contains contains code "token")
    then context_overflow
    else if status == 400
        && (code_contains contains code "content_policy" || code_contains contains code "safety")
    then content_policy
    else if leb 400 status && leb status 499
    then invalid_request
    else server

-- The kinds after which another attempt may follow (`transient` in `request_model`).
abbrev pub is_transient : ProviderErrorKind → Bool
is_transient rate_limit = true
is_transient transport = true
is_transient server = true
is_transient (timeout phase) = true
is_transient _ = false

-- Whatever the code says, an answer is classified as transient exactly when it is a 429 with no
-- "quota" in its code, or when its status is not one from 400 to 499.
pub from_http_kind-transient :
    (contains : String → String → Bool) (status : ℕ) (code : Option String)
    → is_transient (from_http_kind contains status code) ≡ (
        (status == 429 && (if code_contains contains code "quota" then false else true))
        || (if leb 400 status && leb status 499 then false else true))
unfolding from_http_kind
from_http_kind-transient contains status code = ground arith
