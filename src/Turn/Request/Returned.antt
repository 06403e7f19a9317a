-- ===== src/Turn/Request/Returned.antt =====
-- The probes that a request of src/loop_engine.rs takes, and gives back.
use dtcoder_test.Prelude.{
  ℕ, zero, suc, ◌+◌, ◌≡◌, refl, ◌⊎◌, inl, inr, String, Bool, true, false, not, ◌&&◌, Option, none,
  some, List, [], ◌∷◌, length, arith, Bool-cases,
}
use dtcoder_test.Provider.Error.{is_transient}
use dtcoder_test.Provider.Retry.{RetryPolicy, RetryDecision, fail, retry, fallback, decide}
use dtcoder_test.Provider.Circuit.{
  CircuitState, closed, open_circuit, half_open, CircuitBreaker, acquire, record_outcome,
}
use dtcoder_test.Provider.Circuit.Probes.{
  IsFree, IsFreeBut, record-IsFree, acquire-IsFreeBut, acquire-IsFree,
}
use dtcoder_test.Turn.Stream.{ProviderError, ModelOutput, request_model_once}
use dtcoder_test.Turn.Request.{
  World, Progress, Outcome, answered, failed, stopped, exhausted, Verdict, return, next_candidate,
  is_open, is_overflow, is_assembly_failure, is_safe, judge, redirect, act, decide_on, compact_or,
  on_error, after_attempt, attempt, try_candidate, most_retries, candidate_fuel, is_nil,
  continue_with, try_candidates, first_progress, request_model,
}

module _ {V M : Type 0} (w : World M) (j : String) where
  -- The probe of `j` is not out, but for a request that found itself cancelled before an attempt.
  abbrev pub EndsFree : Progress M × Outcome V → Type 0
  EndsFree (p, answered output) = IsFree j p.breaker
  EndsFree (p, failed error) = IsFree j p.breaker
  EndsFree (p, exhausted) = IsFree j p.breaker
  EndsFree (p, stopped) = IsFree j p.breaker ⊎ (w.cancelled_before (length p.asked) ≡ true)

  abbrev LeavesFree : Progress M × Verdict V → Type 0
  LeavesFree (p, return outcome) = EndsFree (p, outcome)
  LeavesFree (p, next_candidate) = IsFree j p.breaker

is_open-open : (s : CircuitState) → is_open s ≡ true → s ≡ open_circuit
is_open-open closed h = cc
is_open-open open_circuit h = refl
is_open-open half_open h = cc

module _ {V M : Type 0} (parse : String → V ⊎ String) (empty_object : V) (w : World M)
    (policy : RetryPolicy) (j : String) where
  -- What follows an attempt, from a state where the probe of `j` is not out.
  abbrev FollowsFree : (Progress M → Progress M × Verdict V) → Type 0
  FollowsFree next = (q : Progress M) → IsFree j q.breaker → LeavesFree w j (next q)

  act-LeavesFree :
      (d : RetryDecision) (error : ProviderError) (p : Progress M)
      (again : Progress M → Progress M × Verdict V)
      → IsFree j p.breaker
      → FollowsFree again
      → LeavesFree w j (act parse empty_object w policy d error p again)
  act-LeavesFree fail error p again f h = f
  act-LeavesFree fallback error p again f h = f
  act-LeavesFree (retry ms) error p again f h =
      elim (Bool-cases (w.cancelled_after (length p.asked))) [
        | inl e ↦ rw e (inl f)
        | inr e ↦ rw e (h p f)
      ]

  decide_on-LeavesFree :
      (safe : Bool) (prior : ℕ) (more : Bool) (state : CircuitState) (error : ProviderError)
      (p : Progress M) (again : Progress M → Progress M × Verdict V)
      → IsFree j p.breaker
      → FollowsFree again
      → LeavesFree w j (decide_on parse empty_object w policy safe prior more state error p again)
  decide_on-LeavesFree safe prior more state error p again f h =
      act-LeavesFree
        (redirect (is_open state) safe more
          (decide policy error.kind prior error.retry_after_ms safe more))
        error (record p { last_error = error }) again f h

  compact_or-LeavesFree :
      (smaller : Option M) (safe : Bool) (prior : ℕ) (more : Bool) (state : CircuitState)
      (error : ProviderError) (p : Progress M) (same again : Progress M → Progress M × Verdict V)
      → IsFree j p.breaker
      → FollowsFree same
      → FollowsFree again
      → LeavesFree w j
          (compact_or parse empty_object w policy smaller safe prior more state error p same again)
  compact_or-LeavesFree none safe prior more state error p same again f hs h =
      decide_on-LeavesFree safe prior more state error p again f h
  compact_or-LeavesFree (some m) safe prior more state error p same again f hs h =
      hs (record p { messages = m }) f

  on_error-LeavesFree :
      (key : String) (safe : Bool) (prior : ℕ) (more : Bool) (error : ProviderError)
      (p : Progress M) (same again : Progress M → Progress M × Verdict V)
      → IsFreeBut key j p.breaker
      → FollowsFree same
      → FollowsFree again
      → LeavesFree w j (on_error parse empty_object w policy key safe prior more error p same again)
  on_error-LeavesFree key safe prior more error p same again f hs h =
      let at = w.recorded_at (length p.asked) in
      let (breaker, state) = record_outcome at key false (is_transient error.kind) p.breaker in
      let freed = record-IsFree at key j false (is_transient error.kind) p.breaker f in
      elim (Bool-cases (is_overflow error.kind && not p.compacted && safe)) [
        | inl e ↦ rw e (
            compact_or-LeavesFree (w.compact (length p.asked) p.messages) safe prior more state
              error (record p { breaker = breaker; compacted = true }) same again freed hs h)
        | inr e ↦ rw e (
            decide_on-LeavesFree safe prior more state error (record p { breaker = breaker }) again
              freed h)
      ]

  after_attempt-LeavesFree :
      (key : String) (safe : Bool) (prior : ℕ) (more : Bool)
      (answer : ModelOutput V ⊎ ProviderError) (p : Progress M)
      (same again : Progress M → Progress M × Verdict V)
      → IsFreeBut key j p.breaker
      → FollowsFree same
      → FollowsFree again
      → LeavesFree w j
          (after_attempt parse empty_object w policy key safe prior more answer p same again)
  after_attempt-LeavesFree key safe prior more (inl output) p same again f hs h =
      record-IsFree (w.recorded_at (length p.asked)) key j
        (not (is_assembly_failure output.response)) false p.breaker f
  after_attempt-LeavesFree key safe prior more (inr error) p same again f hs h =
      on_error-LeavesFree key safe prior more error p same again f hs h

  attempt-LeavesFree :
      (i : ℕ) (key : String) (prior : ℕ) (more : Bool) (p : Progress M)
      (same again : Progress M → Progress M × Verdict V)
      → IsFreeBut key j p.breaker
      → FollowsFree same
      → FollowsFree again
      → LeavesFree w j (attempt parse empty_object w policy i key prior more p same again)
  attempt-LeavesFree i key prior more p same again f hs h =
      let (stream, answer) =
        request_model_once parse empty_object (w.ask (length p.asked) p.messages) in
      after_attempt-LeavesFree key (is_safe stream) prior more (judge stream answer)
        (record p { asked = record { candidate = i; stream = stream } ∷ p.asked }) same again f hs h

  try_candidate-FollowsFree :
      (fuel i : ℕ) (key : String) (prior : ℕ) (more : Bool)
      → FollowsFree (try_candidate parse empty_object w policy fuel i key prior more)
  unfolding try_candidate
  try_candidate-FollowsFree zero i key prior more p f = f
  try_candidate-FollowsFree (suc fuel) i key prior more p f =
      elim (Bool-cases (w.cancelled_before (length p.asked))) [
        | inl e ↦ rw e (inl f)
        | inr e ↦ rw e (
            attempt-LeavesFree i key prior more p _ _ (λ other'. f)
              (try_candidate-FollowsFree fuel i key prior more)
              (try_candidate-FollowsFree fuel i key (prior + 1) more))
      ]

  -- A candidate whose own probe may be out.
  try_candidate-LeavesFree :
      (fuel i : ℕ) (key : String) (prior : ℕ) (more : Bool) (p : Progress M)
      → IsFreeBut key j p.breaker
      → LeavesFree w j (try_candidate parse empty_object w policy (suc fuel) i key prior more p)
  unfolding try_candidate
  try_candidate-LeavesFree fuel i key prior more p f =
      elim (Bool-cases (w.cancelled_before (length p.asked))) [
        | inl e ↦ rw e (inr e)
        | inr e ↦ rw e (
            attempt-LeavesFree i key prior more p _ _ f
              (try_candidate-FollowsFree fuel i key prior more)
              (try_candidate-FollowsFree fuel i key (prior + 1) more))
      ]

  continue_with-EndsFree :
      (r : Progress M × Verdict V) (next : Progress M → Progress M × Outcome V)
      → LeavesFree w j r
      → ((q : Progress M) → IsFree j q.breaker → EndsFree w j (next q))
      → EndsFree w j (continue_with r next)
  continue_with-EndsFree (p, return outcome) next e h = e
  continue_with-EndsFree (p, next_candidate) next e h = h p e

  try_candidates-EndsFree :
      (i : ℕ) (keys : List String) (p : Progress M)
      → IsFree j p.breaker
      → EndsFree w j (try_candidates parse empty_object w policy i keys p)
  unfolding try_candidates
  try_candidates-EndsFree i [] p f = f
  try_candidates-EndsFree i (key ∷ keys) p f =
      let at = w.acquired_at i in
      let (breaker, state) = acquire at key p.breaker in
      let q : Progress M = record p { breaker = breaker } in
      elim (Bool-cases (is_open state)) [
        | inl e ↦ rw e (
            try_candidates-EndsFree (i + 1) keys q
              (acquire-IsFree at key j p.breaker (is_open-open state e) f))
        | inr e ↦ rw e (
            continue_with-EndsFree
              (try_candidate parse empty_object w policy (candidate_fuel policy) i key 0
                (not (is_nil keys)) q)
              (try_candidates parse empty_object w policy (i + 1) keys)
              (let fuel : candidate_fuel policy ≡ suc (most_retries policy + 1) = omega arith in
                rw fuel (
                  try_candidate-LeavesFree (most_retries policy + 1) i key 0 (not (is_nil keys)) q
                    (acquire-IsFreeBut at key j p.breaker f)))
              (try_candidates-EndsFree (i + 1) keys))
      ]

  -- A request gives back every probe of a half-open circuit that it takes: whatever candidates it
  -- asks, however often, and however it ends, a probe that was not out before it is not out after
  -- it. The one exception is a request that ends because it finds itself cancelled before an
  -- attempt; the writes to the store are taken to succeed.
  pub request_model-EndsFree :
      (keys : List String) (breaker : CircuitBreaker) (messages : M)
      → IsFree j breaker
      → EndsFree w j (request_model parse empty_object w policy keys breaker messages)
  unfolding request_model
  request_model-EndsFree keys breaker messages f = elim (Bool-cases w.cancelled_at_start) [
    | inl e ↦ simp e (inl f)
    | inr e ↦ simp e (try_candidates-EndsFree 0 keys (first_progress breaker messages) f)
  ]
