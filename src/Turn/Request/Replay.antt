-- ===== src/Turn/Request/Replay.antt =====
-- Which attempts of a request are followed by another one (src/loop_engine.rs).
use dtcoder_test.Prelude.{
  ℕ, zero, suc, ◌+◌, ◌≡◌, refl, ◌⊎◌, inl, inr, String, Bool, true, false, not, ◌&&◌, Option, none,
  some, List, [], ◌∷◌, length, arith, All, Bool-cases, &&-right,
}
use dtcoder_test.Provider.Error.{is_transient}
use dtcoder_test.Provider.Retry.{RetryPolicy, RetryDecision, fail, retry, fallback, decide}
use dtcoder_test.Provider.Circuit.{CircuitState, CircuitBreaker, acquire, record_outcome}
use dtcoder_test.Turn.Stream.{ProviderError, ModelOutput, Request, request_model_once}
use dtcoder_test.Turn.Stream.Laws.{IsQuiet, request_model_once-IsQuiet}
use dtcoder_test.Turn.Request.{
  World, Asked, Progress, Outcome, Verdict, return, next_candidate, is_open, is_overflow, is_safe,
  judge, act, decide_on, compact_or, on_error, after_attempt, try_candidate, candidate_fuel, is_nil,
  continue_with, try_candidates, first_progress, request_model,
}

-- Of the attempts that were made, newest first, all have shown nothing; or all but the newest.
abbrev pub AllQuiet : List Asked → Type 0
AllQuiet = All (λ a. IsQuiet a.stream)

abbrev pub IsReplayable : List Asked → Type 0
IsReplayable [] = Unit
IsReplayable (a ∷ older) = AllQuiet older

AllQuiet-IsReplayable : (as' : List Asked) → AllQuiet as' → IsReplayable as'
AllQuiet-IsReplayable [] h = tt
AllQuiet-IsReplayable (a ∷ older) h = h.1

module _ {V M : Type 0} where
  abbrev Ends : Progress M × Verdict V → Type 0
  Ends (p, return outcome) = IsReplayable p.asked
  Ends (p, next_candidate) = AllQuiet p.asked

module _ {V M : Type 0} (parse : String → V ⊎ String) (empty_object : V) (w : World M)
    (policy : RetryPolicy) where
  safe-IsQuiet :
      (r : Request)
      → is_safe ((request_model_once parse empty_object r).0) ≡ true
      → IsQuiet ((request_model_once parse empty_object r).0)
  safe-IsQuiet r h = request_model_once-IsQuiet parse empty_object r (ground arith)

  act-Ends :
      (d : RetryDecision) (error : ProviderError) (p : Progress M)
      (again : Progress M → Progress M × Verdict V)
      → IsReplayable p.asked
      → (d ≡ fail) ⊎ AllQuiet p.asked
      → ((q : Progress M) → AllQuiet q.asked → Ends (again q))
      → Ends (act parse empty_object w policy d error p again)
  act-Ends fail error p again r s h = r
  act-Ends fallback error p again r (inl e) h = absurd (ground arith)
  act-Ends fallback error p again r (inr s) h = s
  act-Ends (retry ms) error p again r (inl e) h = absurd (ground arith)
  act-Ends (retry ms) error p again r (inr s) h =
      elim (Bool-cases (w.cancelled_after (length p.asked))) [
        | inl e ↦ rw e r
        | inr e ↦ rw e (h p s)
      ]

  decide_on-Ends :
      (safe : Bool) (prior : ℕ) (more : Bool) (state : CircuitState) (error : ProviderError)
      (p : Progress M) (again : Progress M → Progress M × Verdict V)
      → IsReplayable p.asked
      → (safe ≡ true → AllQuiet p.asked)
      → ((q : Progress M) → AllQuiet q.asked → Ends (again q))
      → Ends (decide_on parse empty_object w policy safe prior more state error p again)
  unfolding decide
  decide_on-Ends false prior more state error p again r s h = r
  decide_on-Ends true prior more state error p again r s h =
      act-Ends _ error (record p { last_error = error }) again r (inr (s refl)) h

  compact_or-Ends :
      (smaller : Option M) (safe : Bool) (prior : ℕ) (more : Bool) (state : CircuitState)
      (error : ProviderError) (p : Progress M) (same again : Progress M → Progress M × Verdict V)
      → IsReplayable p.asked
      → AllQuiet p.asked
      → ((q : Progress M) → AllQuiet q.asked → Ends (same q))
      → ((q : Progress M) → AllQuiet q.asked → Ends (again q))
      → Ends
          (compact_or parse empty_object w policy smaller safe prior more state error p same again)
  compact_or-Ends none safe prior more state error p same again r s hs h =
      decide_on-Ends safe prior more state error p again r (λ e. s) h
  compact_or-Ends (some m) safe prior more state error p same again r s hs h =
      hs (record p { messages = m }) s

  on_error-Ends :
      (key : String) (safe : Bool) (prior : ℕ) (more : Bool) (error : ProviderError)
      (p : Progress M) (same again : Progress M → Progress M × Verdict V)
      → IsReplayable p.asked
      → (safe ≡ true → AllQuiet p.asked)
      → ((q : Progress M) → AllQuiet q.asked → Ends (same q))
      → ((q : Progress M) → AllQuiet q.asked → Ends (again q))
      → Ends (on_error parse empty_object w policy key safe prior more error p same again)
  on_error-Ends key safe prior more error p same again r s hs h =
      let (breaker, state) =
        record_outcome (w.recorded_at (length p.asked)) key false (is_transient error.kind)
          p.breaker in
      elim (Bool-cases (is_overflow error.kind && not p.compacted && safe)) [
        | inl e ↦ rw e (
            compact_or-Ends (w.compact (length p.asked) p.messages) safe prior more state error
              (record p { breaker = breaker; compacted = true }) same again r
              (s (&&-right (is_overflow error.kind && not p.compacted) safe e)) hs h)
        | inr e ↦ rw e (
            decide_on-Ends safe prior more state error (record p { breaker = breaker }) again r s h)
      ]

  after_attempt-Ends :
      (key : String) (safe : Bool) (prior : ℕ) (more : Bool)
      (answer : ModelOutput V ⊎ ProviderError) (p : Progress M)
      (same again : Progress M → Progress M × Verdict V)
      → IsReplayable p.asked
      → (safe ≡ true → AllQuiet p.asked)
      → ((q : Progress M) → AllQuiet q.asked → Ends (same q))
      → ((q : Progress M) → AllQuiet q.asked → Ends (again q))
      → Ends (after_attempt parse empty_object w policy key safe prior more answer p same again)
  after_attempt-Ends key safe prior more (inl output) p same again r s hs h = r
  after_attempt-Ends key safe prior more (inr error) p same again r s hs h =
      on_error-Ends key safe prior more error p same again r s hs h

  try_candidate-Ends :
      (fuel i : ℕ) (key : String) (prior : ℕ) (more : Bool) (p : Progress M)
      → AllQuiet p.asked
      → Ends (try_candidate parse empty_object w policy fuel i key prior more p)
  unfolding try_candidate
  try_candidate-Ends zero i key prior more p s = AllQuiet-IsReplayable p.asked s
  try_candidate-Ends (suc fuel) i key prior more p s =
      let (stream, answer) =
        request_model_once parse empty_object (w.ask (length p.asked) p.messages) in
      elim (Bool-cases (w.cancelled_before (length p.asked))) [
        | inl e ↦ rw e (AllQuiet-IsReplayable p.asked s)
        | inr e ↦ rw e (
            after_attempt-Ends key (is_safe stream) prior more (judge stream answer)
              (record p { asked = record { candidate = i; stream = stream } ∷ p.asked }) _ _ s
              (λ t. (safe-IsQuiet (w.ask (length p.asked) p.messages) t, s))
              (try_candidate-Ends fuel i key prior more)
              (try_candidate-Ends fuel i key (prior + 1) more))
      ]

  continue_with-IsReplayable :
      (r : Progress M × Verdict V) (next : Progress M → Progress M × Outcome V)
      → Ends r
      → ((q : Progress M) → AllQuiet q.asked → IsReplayable (next q).0.asked)
      → IsReplayable (continue_with r next).0.asked
  continue_with-IsReplayable (p, return outcome) next e h = e
  continue_with-IsReplayable (p, next_candidate) next e h = h p e

  try_candidates-IsReplayable :
      (i : ℕ) (keys : List String) (p : Progress M)
      → AllQuiet p.asked
      → IsReplayable (try_candidates parse empty_object w policy i keys p).0.asked
  unfolding try_candidates
  try_candidates-IsReplayable i [] p s = AllQuiet-IsReplayable p.asked s
  try_candidates-IsReplayable i (key ∷ keys) p s =
      let (breaker, state) = acquire (w.acquired_at i) key p.breaker in
      let q : Progress M = record p { breaker = breaker } in
      elim (Bool-cases (is_open state)) [
        | inl e ↦ rw e (try_candidates-IsReplayable (i + 1) keys q s)
        | inr e ↦ rw e (
            continue_with-IsReplayable
              (try_candidate parse empty_object w policy (candidate_fuel policy) i key 0
                (not (is_nil keys)) q)
              (try_candidates parse empty_object w policy (i + 1) keys)
              (try_candidate-Ends (candidate_fuel policy) i key 0 (not (is_nil keys)) q s)
              (try_candidates-IsReplayable (i + 1) keys))
      ]

-- A request asks again only where nothing was shown: whatever the providers stream, whatever the
-- breaker, the policy, the cancellation and the compaction do, every attempt but the last one made
-- has given out no text, no thinking and no tool call.
pub request_model-IsReplayable :
    {V M : Type 0} (parse : String → V ⊎ String) (empty_object : V) (w : World M)
    (policy : RetryPolicy) (keys : List String) (breaker : CircuitBreaker) (messages : M)
    → IsReplayable (request_model parse empty_object w policy keys breaker messages).0.asked
unfolding request_model
request_model-IsReplayable parse empty_object w policy keys breaker messages =
    elim (Bool-cases w.cancelled_at_start) [
      | inl e ↦ simp e tt
      | inr e ↦ simp e (
          try_candidates-IsReplayable parse empty_object w policy 0 keys
            (first_progress breaker messages) tt)
    ]
