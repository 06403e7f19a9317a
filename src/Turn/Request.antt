-- ===== src/Turn/Request.antt =====
-- src/loop_engine.rs: asking a model over the candidates of a route (`request_model`), with retries,
-- one compaction of the messages, and fallback to the next candidate. What the outside answers is a
-- `World`: for the n-th attempt of the request, what the provider streams, the time at which the
-- circuit breaker is told, and whether the turn is cancelled before it or while waiting after it.
-- The writes of the attempts to the store are modelled in Runs.Attempts, and taken to succeed here.
pub mod Bounds
pub mod Replay
pub mod Probe
pub mod Returned
use dtcoder_test.Prelude.{
  ℕ, zero, suc, ◌+◌, ◌≤◌, ◌<◌, max, ◌≡◌, ◌⊎◌, inl, inr, String, Bool, true, false, not, ◌&&◌,
  Option, none, some, List, [], ◌∷◌, if◌then◌else◌, ltb, is_some, length,
}
use dtcoder_test.Prelude.Text.{is_empty_text}
use dtcoder_test.Provider.Error.{
  ProviderErrorKind, server, output_truncated as truncated_kind, reasoning_only, empty_completion,
  cancelled, context_overflow, is_transient,
}
use dtcoder_test.Provider.Retry.{RetryPolicy, RetryDecision, fail, retry, fallback, decide}
use dtcoder_test.Provider.Circuit.{
  CircuitState, closed, open_circuit, half_open, CircuitBreaker, acquire, record_outcome,
}
use dtcoder_test.Assembler.{Response, text_response, tool_calls, tool_assembly_failed}
use dtcoder_test.Turn.Stream.{
  Stream, ProviderError, error_of, ModelOutput, Request, request_model_once,
}

-- M is the type of the messages of a request.
pub record World (M : Type 0) : Type 0 where
  pub ask : ℕ → M → Request
  pub acquired_at : ℕ → ℕ
  pub recorded_at : ℕ → ℕ
  pub cancelled_at_start : Bool
  pub cancelled_before : ℕ → Bool
  pub cancelled_after : ℕ → Bool
  -- `compact_for_overflow`, where it gives `Ok(Some(..))`
  pub compact : ℕ → M → Option M

-- An attempt that has been made.
pub record Asked : Type 0 where
  pub candidate : ℕ
  pub stream : Stream

-- What `request_model` keeps while it runs; the attempts stand newest first.
pub record Progress (M : Type 0) : Type 0 where
  pub breaker : CircuitBreaker
  pub asked : List Asked
  pub messages : M
  pub compacted : Bool
  pub last_error : ProviderError

pub data Outcome (V : Type 0) : Type 0 where
  answered : ModelOutput V → Outcome V
  failed : ProviderError → Outcome V
  stopped exhausted : Outcome V

-- How the loop over one candidate ends: with the outcome of the request, or with the next candidate.
pub data Verdict (V : Type 0) : Type 0 where
  return : Outcome V → Verdict V
  next_candidate : Verdict V

abbrev pub is_open : CircuitState → Bool
is_open open_circuit = true
is_open _ = false

abbrev pub is_empty_response : {V : Type 0} → Response V → Bool
is_empty_response (text_response text) = is_empty_text text
is_empty_response _ = false

abbrev pub is_assembly_failure : {V : Type 0} → Response V → Bool
is_assembly_failure (tool_assembly_failed error) = true
is_assembly_failure _ = false

abbrev pub is_overflow : ProviderErrorKind → Bool
is_overflow context_overflow = true
is_overflow _ = false

abbrev pub is_safe : Stream → Bool
is_safe s = not s.observation.stream_committed && not s.observation.tool_call_seen

-- The `match outcome`: an answer that cannot be used is an error.
abbrev pub judge_output : {V : Type 0} → Stream → ModelOutput V → ModelOutput V ⊎ ProviderError
judge_output s output =
    if s.observation.output_truncated
    then inr (error_of truncated_kind)
    else if is_empty_response output.response
    then inr (error_of (if is_some output.thinking then reasoning_only else empty_completion))
    else inl output

abbrev pub judge :
    {V : Type 0} → Stream → ModelOutput V ⊎ ProviderError → ModelOutput V ⊎ ProviderError
judge s (inl output) = judge_output s output
judge s (inr error) = inr error

-- A retry on a circuit that is open becomes a fallback, or a failure.
abbrev pub redirect : Bool → Bool → Bool → RetryDecision → RetryDecision
redirect opened safe more (retry ms) =
    if opened then (if safe && more then fallback else fail) else retry ms
redirect opened safe more other = other

-- A bound on the retries of a candidate, whichever errors it has.
abbrev pub most_retries : RetryPolicy → ℕ
most_retries policy = max policy.rate_limit_retries (
    max policy.transport_retries
      (max policy.server_retries (max policy.timeout_retries policy.protocol_retries)))

abbrev pub candidate_fuel : RetryPolicy → ℕ
candidate_fuel policy = most_retries policy + 2

abbrev pub is_nil : List String → Bool
is_nil [] = true
is_nil (k ∷ ks) = false

abbrev pub continue_with :
    {V M : Type 0}
    → Progress M × Verdict V
    → (Progress M → Progress M × Outcome V)
    → Progress M × Outcome V
continue_with (p, return outcome) next = (p, outcome)
continue_with (p, next_candidate) next = next p

abbrev pub first_progress : {M : Type 0} → CircuitBreaker → M → Progress M
first_progress breaker messages = record {
  breaker = breaker;
  asked = [];
  messages = messages;
  compacted = false;
  last_error = error_of server;
}

abbrev pub direct_outcome : {V : Type 0} → ModelOutput V ⊎ ProviderError → Outcome V
direct_outcome (inl output) = answered output
direct_outcome (inr error) = failed error

module _ {V M : Type 0} (parse : String → V ⊎ String) (empty_object : V) (w : World M)
    (policy : RetryPolicy) where
  -- After the decision: `again` is the loop with one more retry counted.
  abbrev pub act :
      RetryDecision
      → ProviderError
      → Progress M
      → (Progress M → Progress M × Verdict V)
      → Progress M × Verdict V
  act fail error p again = (p, return (failed error))
  act fallback error p again = (p, next_candidate)
  act (retry ms) error p again =
      if w.cancelled_after (length p.asked) then (p, return stopped) else again p

  abbrev pub decide_on :
      Bool
      → ℕ
      → Bool
      → CircuitState
      → ProviderError
      → Progress M
      → (Progress M → Progress M × Verdict V)
      → Progress M × Verdict V
  decide_on safe prior more state error p again =
      act
        (redirect (is_open state) safe more
          (decide policy error.kind prior error.retry_after_ms safe more))
        error (record p { last_error = error }) again

  -- The compaction, at most once in a request: `same` is the loop with the retries as they are.
  abbrev pub compact_or :
      Option M
      → Bool
      → ℕ
      → Bool
      → CircuitState
      → ProviderError
      → Progress M
      → (Progress M → Progress M × Verdict V)
      → (Progress M → Progress M × Verdict V)
      → Progress M × Verdict V
  compact_or (some smaller) safe prior more state error p same again =
      same (record p { messages = smaller })
  compact_or none safe prior more state error p same again =
      decide_on safe prior more state error p again

  abbrev pub on_error :
      String
      → Bool
      → ℕ
      → Bool
      → ProviderError
      → Progress M
      → (Progress M → Progress M × Verdict V)
      → (Progress M → Progress M × Verdict V)
      → Progress M × Verdict V
  on_error key safe prior more error p same again =
      let (breaker, state) =
        record_outcome (w.recorded_at (length p.asked)) key false (is_transient error.kind)
          p.breaker in
      let q = record p { breaker = breaker } in
      if is_overflow error.kind && not q.compacted && safe
      then compact_or (w.compact (length q.asked) q.messages) safe prior more state error
          (record q { compacted = true }) same again
      else decide_on safe prior more state error q again

  abbrev pub on_output : String → ModelOutput V → Progress M → Progress M × Verdict V
  on_output key output p =
      let (breaker, state) =
        record_outcome (w.recorded_at (length p.asked)) key
          (not (is_assembly_failure output.response)) false p.breaker in
      (record p { breaker = breaker }, return (answered output))

  abbrev pub after_attempt :
      String
      → Bool
      → ℕ
      → Bool
      → ModelOutput V ⊎ ProviderError
      → Progress M
      → (Progress M → Progress M × Verdict V)
      → (Progress M → Progress M × Verdict V)
      → Progress M × Verdict V
  after_attempt key safe prior more (inl output) p same again = on_output key output p
  after_attempt key safe prior more (inr error) p same again =
      on_error key safe prior more error p same again

  abbrev pub attempt :
      ℕ
      → String
      → ℕ
      → Bool
      → Progress M
      → (Progress M → Progress M × Verdict V)
      → (Progress M → Progress M × Verdict V)
      → Progress M × Verdict V
  attempt i key prior more p same again =
      let (stream, answer) =
        request_model_once parse empty_object (w.ask (length p.asked) p.messages) in
      after_attempt key (is_safe stream) prior more (judge stream answer)
        (record p { asked = record { candidate = i; stream = stream } ∷ p.asked }) same again

  -- The inner `loop`, for the candidate `i` after `prior` retries; the first argument is fuel.
  unfoldable pub try_candidate : ℕ → ℕ → String → ℕ → Bool → Progress M → Progress M × Verdict V
  try_candidate zero i key prior more p = (p, return exhausted)
  try_candidate (suc fuel) i key prior more p =
      if w.cancelled_before (length p.asked)
      then (p, return stopped)
      else attempt i key prior more p (try_candidate fuel i key prior more)
          (try_candidate fuel i key (prior + 1) more)

  -- The outer `for`, from the candidate `i` on; the keys are the circuit keys of the candidates.
  unfoldable pub try_candidates : ℕ → List String → Progress M → Progress M × Outcome V
  try_candidates i [] p = (p, failed p.last_error)
  try_candidates i (key ∷ keys) p =
      let next = try_candidates (i + 1) keys in
      let (breaker, state) = acquire (w.acquired_at i) key p.breaker in
      let q = record p { breaker = breaker } in
      if is_open state
      then next q
      else continue_with (try_candidate (candidate_fuel policy) i key 0 (not (is_nil keys)) q) next

  unfoldable pub request_model : List String → CircuitBreaker → M → Progress M × Outcome V
  request_model keys breaker messages =
      if w.cancelled_at_start
      then (first_progress breaker messages, stopped)
      else try_candidates 0 keys (first_progress breaker messages)

  -- `request_model` of an engine without a route: one attempt, whose answer is not judged.
  unfoldable pub request_directly : CircuitBreaker → M → Progress M × Outcome V
  request_directly breaker messages =
      let p = first_progress breaker messages in
      let (stream, answer) = request_model_once parse empty_object (w.ask 0 messages) in
      if w.cancelled_at_start then (p, stopped) else (
        record p { asked = record { candidate = 0; stream = stream } ∷ [] },
        direct_outcome answer,
      )
