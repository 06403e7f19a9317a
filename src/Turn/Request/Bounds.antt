-- ===== src/Turn/Request/Bounds.antt =====
-- How often a request asks, and that its loops end (src/loop_engine.rs).
use dtcoder_test.Prelude.{
  ℕ, zero, suc, ◌+◌, ◌*◌, ◌≤◌, ◌<◌, ◌≡◌, ◌≢◌, refl, ◌⊎◌, inl, inr, String, Bool, true, false, not,
  ◌&&◌, Option, none, some, List, [], ◌∷◌, length, arith, Bool-cases,
}
use dtcoder_test.Provider.Error.{ProviderErrorKind, is_transient}
use dtcoder_test.Provider.Retry.{
  RetryPolicy, RetryDecision, fail, retry, fallback, decide, budget, Justified, decide-Justified,
}
use dtcoder_test.Provider.Circuit.{CircuitState, CircuitBreaker, acquire, record_outcome}
use dtcoder_test.Turn.Stream.{ProviderError, ModelOutput, request_model_once}
use dtcoder_test.Turn.Request.{
  World, Progress, Outcome, answered, failed, stopped, exhausted, Verdict, return, next_candidate,
  is_open, is_overflow, is_safe, judge, redirect, act, decide_on, compact_or, on_error,
  after_attempt, try_candidate, most_retries, candidate_fuel, is_nil, continue_with, try_candidates,
  first_progress, request_model, direct_outcome, request_directly,
}

pub budget-most_retries :
    (policy : RetryPolicy) (kind : ProviderErrorKind) → budget policy kind ≤ most_retries policy
budget-most_retries policy kind = ground arith

-- The compaction that a request may still make.
abbrev pub slack : Bool → ℕ
slack true = 0
slack false = 1

module _ {V M : Type 0} where
  -- An end with enough fuel, of a request that has made n attempts and compactions at most.
  abbrev Within : ℕ → Progress M × Verdict V → Type 0
  Within n (p, return exhausted) = ⊥
  Within n (p, v) = length p.asked + slack p.compacted ≤ n

  abbrev pub EndsWithin : ℕ → Progress M × Outcome V → Type 0
  EndsWithin n (p, exhausted) = ⊥
  EndsWithin n (p, o) = length p.asked + slack p.compacted ≤ n

-- What a step of a request may do to what it has spent.
abbrev Follows : {M : Type 0} → Progress M → Progress M → Type 0
Follows p q = (length q.asked ≡ length p.asked) × (slack q.compacted ≤ slack p.compacted)

abbrev Compacts : {M : Type 0} → Progress M → Progress M → Type 0
Compacts p q = (length q.asked ≡ length p.asked) × (slack q.compacted < slack p.compacted)

redirect-retry :
    (policy : RetryPolicy) (kind : ProviderErrorKind) (prior ms : ℕ) (opened safe more : Bool)
    (d : RetryDecision)
    → Justified policy kind prior safe more d
    → redirect opened safe more d ≡ retry ms
    → prior < budget policy kind
redirect-retry policy kind prior ms opened safe more fail j h = absurd (ground arith)
redirect-retry policy kind prior ms opened safe more fallback j h = absurd (ground arith)
redirect-retry policy kind prior ms opened safe more (retry t) j h = j.1

retry-lt-most_retries :
    (policy : RetryPolicy) (kind : ProviderErrorKind) (prior ms : ℕ) (retry_after : Option ℕ)
    (opened safe more : Bool)
    → redirect opened safe more (decide policy kind prior retry_after safe more) ≡ retry ms
    → prior < most_retries policy
retry-lt-most_retries policy kind prior ms retry_after opened safe more h =
    let b = budget-most_retries policy kind in
    let l =
      redirect-retry policy kind prior ms opened safe more
        (decide policy kind prior retry_after safe more)
        (decide-Justified policy kind prior retry_after safe more) h in
    omega arith

module _ {V M : Type 0} (parse : String → V ⊎ String) (empty_object : V) (w : World M)
    (policy : RetryPolicy) where
  act-Within :
      (d : RetryDecision) (error : ProviderError) (p : Progress M)
      (again : Progress M → Progress M × Verdict V) (n : ℕ)
      → length p.asked + slack p.compacted ≤ n
      → ((ms : ℕ) → d ≡ retry ms → Within n (again p))
      → Within n (act parse empty_object w policy d error p again)
  act-Within fail error p again n b h = b
  act-Within fallback error p again n b h = b
  act-Within (retry ms) error p again n b h =
      elim (Bool-cases (w.cancelled_after (length p.asked))) [
        | inl e ↦ rw e b
        | inr e ↦ rw e (h ms refl)
      ]

  decide_on-Within :
      (safe : Bool) (prior : ℕ) (more : Bool) (state : CircuitState) (error : ProviderError)
      (p : Progress M) (again : Progress M → Progress M × Verdict V) (n : ℕ)
      → length p.asked + slack p.compacted ≤ n
      → (prior < most_retries policy → (q : Progress M) → Follows p q → Within n (again q))
      → Within n (decide_on parse empty_object w policy safe prior more state error p again)
  decide_on-Within safe prior more state error p again n b h =
      act-Within _ error (record p { last_error = error }) again n b
        (λ ms e.
          h
            (retry-lt-most_retries policy error.kind prior ms error.retry_after_ms (is_open state)
              safe more e)
            _ (refl, omega arith))

  compact_or-Within :
      (smaller : Option M) (safe : Bool) (prior : ℕ) (more : Bool) (state : CircuitState)
      (error : ProviderError) (p : Progress M) (same again : Progress M → Progress M × Verdict V)
      (n : ℕ)
      → p.compacted ≡ true
      → length p.asked ≤ n
      → ((q : Progress M)
          → (length q.asked ≡ length p.asked) × (q.compacted ≡ true)
          → Within n (same q))
      → (prior < most_retries policy → (q : Progress M) → Follows p q → Within n (again q))
      → Within n
          (compact_or parse empty_object w policy smaller safe prior more state error p same again)
  compact_or-Within none safe prior more state error p same again n c b hs h =
      decide_on-Within safe prior more state error p again n (ground arith) h
  compact_or-Within (some m) safe prior more state error p same again n c b hs h =
      hs (record p { messages = m }) (refl, c)

  on_error-Within :
      (key : String) (safe : Bool) (prior : ℕ) (more : Bool) (error : ProviderError)
      (p : Progress M) (same again : Progress M → Progress M × Verdict V) (n : ℕ)
      → length p.asked + slack p.compacted ≤ n
      → ((q : Progress M) → Compacts p q → Within n (same q))
      → (prior < most_retries policy → (q : Progress M) → Follows p q → Within n (again q))
      → Within n (on_error parse empty_object w policy key safe prior more error p same again)
  on_error-Within key safe prior more error p same again n b hs h =
      let (breaker, state) =
        record_outcome (w.recorded_at (length p.asked)) key false (is_transient error.kind)
          p.breaker in
      elim (Bool-cases (is_overflow error.kind && not p.compacted && safe)) [
        | inl e ↦
            let fresh : p.compacted ≡ false = ground arith in
            rw e (
              compact_or-Within (w.compact (length p.asked) p.messages) safe prior more state error
                (record p { breaker = breaker; compacted = true }) same again n refl (omega arith)
                (λ q f. hs q (f.0, ground arith)) (λ l q f. h l q (f.0, omega (arith, f.1))))
        | inr e ↦ rw e (
            decide_on-Within safe prior more state error (record p { breaker = breaker }) again n b
              h)
      ]

  after_attempt-Within :
      (key : String) (safe : Bool) (prior : ℕ) (more : Bool)
      (answer : ModelOutput V ⊎ ProviderError) (p : Progress M)
      (same again : Progress M → Progress M × Verdict V) (n : ℕ)
      → length p.asked + slack p.compacted ≤ n
      → ((q : Progress M) → Compacts p q → Within n (same q))
      → (prior < most_retries policy → (q : Progress M) → Follows p q → Within n (again q))
      → Within n (after_attempt parse empty_object w policy key safe prior more answer p same again)
  after_attempt-Within key safe prior more (inl output) p same again n b hs h = b
  after_attempt-Within key safe prior more (inr error) p same again n b hs h =
      on_error-Within key safe prior more error p same again n b hs h

  try_candidate-Within :
      (fuel i : ℕ) (key : String) (prior : ℕ) (more : Bool) (p : Progress M) (n : ℕ)
      → prior ≤ most_retries policy
      → most_retries policy + 1 + slack p.compacted ≤ fuel + prior
      → length p.asked + slack p.compacted + most_retries policy + 1 ≤ n + prior
      → Within n (try_candidate parse empty_object w policy fuel i key prior more p)
  unfolding try_candidate
  try_candidate-Within zero i key prior more p n r f b = absurd (omega arith)
  try_candidate-Within (suc fuel) i key prior more p n r f b =
      let (stream, answer) =
        request_model_once parse empty_object (w.ask (length p.asked) p.messages) in
      elim (Bool-cases (w.cancelled_before (length p.asked))) [
        | inl e ↦ rw e (omega arith)
        | inr e ↦ rw e (
            after_attempt-Within key (is_safe stream) prior more (judge stream answer)
              (record p { asked = record { candidate = i; stream = stream } ∷ p.asked }) _ _ n
              (omega arith)
              (λ q c.
                try_candidate-Within fuel i key prior more q n r (omega (arith, c.1))
                  (omega (arith, c.0, c.1)))
              (λ l q c.
                try_candidate-Within fuel i key (prior + 1) more q n (omega arith)
                  (omega (arith, c.1)) (omega (arith, c.0, c.1))))
      ]

  continue_with-EndsWithin :
      (r : Progress M × Verdict V) (next : Progress M → Progress M × Outcome V) (m n : ℕ)
      → m ≤ n
      → Within m r
      → ((q : Progress M) → length q.asked + slack q.compacted ≤ m → EndsWithin n (next q))
      → EndsWithin n (continue_with r next)
  continue_with-EndsWithin (p, return (answered output)) next m n le b h = omega arith
  continue_with-EndsWithin (p, return (failed error)) next m n le b h = omega arith
  continue_with-EndsWithin (p, return stopped) next m n le b h = omega arith
  continue_with-EndsWithin (p, return exhausted) next m n le b h = b
  continue_with-EndsWithin (p, next_candidate) next m n le b h = h p b

  try_candidates-EndsWithin :
      (i : ℕ) (keys : List String) (p : Progress M) (n : ℕ)
      → length p.asked + slack p.compacted + length keys * (most_retries policy + 1) ≤ n
      → EndsWithin n (try_candidates parse empty_object w policy i keys p)
  unfolding try_candidates
  try_candidates-EndsWithin i [] p n b = omega arith
  try_candidates-EndsWithin i (key ∷ keys) p n b =
      let (breaker, state) = acquire (w.acquired_at i) key p.breaker in
      let q : Progress M = record p { breaker = breaker } in
      let rest = length keys * (most_retries policy + 1) in
      let more : length (key ∷ keys) * (most_retries policy + 1) ≡ most_retries policy + 1 + rest =
        ground arith in
      elim (Bool-cases (is_open state)) [
        | inl e ↦ rw e (try_candidates-EndsWithin (i + 1) keys q n (omega arith))
        | inr e ↦ rw e (
            continue_with-EndsWithin
              (try_candidate parse empty_object w policy (candidate_fuel policy) i key 0
                (not (is_nil keys)) q)
              (try_candidates parse empty_object w policy (i + 1) keys)
              (length p.asked + slack p.compacted + most_retries policy + 1) n (omega arith)
              (try_candidate-Within (candidate_fuel policy) i key 0 (not (is_nil keys)) q _
                (omega arith) (ground arith) (omega arith))
              (λ r c. try_candidates-EndsWithin (i + 1) keys r n (omega arith)))
      ]

EndsWithin-bound :
    {V M : Type 0} (n : ℕ) (r : Progress M × Outcome V)
    → EndsWithin n r
    → (r.1 ≢ exhausted) × (length r.0.asked ≤ n)
EndsWithin-bound n (p, answered output) h = (λ e. absurd (ground arith), omega arith)
EndsWithin-bound n (p, failed error) h = (λ e. absurd (ground arith), omega arith)
EndsWithin-bound n (p, stopped) h = (λ e. absurd (ground arith), omega arith)
EndsWithin-bound n (p, exhausted) h = absurd h

-- A request ends whatever the outside does: the fuel of a candidate, two more than the largest
-- retry budget of the policy, is never used up, and over all candidates a request asks at most once
-- more than one time and the largest budget for each candidate (the one more follows the compaction).
pub request_model-ends :
    {V M : Type 0} (parse : String → V ⊎ String) (empty_object : V) (w : World M)
    (policy : RetryPolicy) (keys : List String) (breaker : CircuitBreaker) (messages : M)
    → ((request_model parse empty_object w policy keys breaker messages).1 ≢ exhausted)
      × (length (request_model parse empty_object w policy keys breaker messages).0.asked
          ≤ length keys * (most_retries policy + 1) + 1)
unfolding request_model
request_model-ends parse empty_object w policy keys breaker messages =
    elim (Bool-cases w.cancelled_at_start) [
      | inl e ↦ simp e ((λ h. absurd (ground arith)), omega arith)
      | inr e ↦ simp e (
          EndsWithin-bound (length keys * (most_retries policy + 1) + 1)
            (try_candidates parse empty_object w policy 0 keys (first_progress breaker messages))
            (try_candidates-EndsWithin parse empty_object w policy 0 keys
              (first_progress breaker messages) (length keys * (most_retries policy + 1) + 1)
              (omega arith)))
    ]

direct_outcome-ends :
    {V : Type 0} (answer : ModelOutput V ⊎ ProviderError) → direct_outcome answer ≢ exhausted
direct_outcome-ends (inl output) h = absurd (ground arith)
direct_outcome-ends (inr error) h = absurd (ground arith)

pub request_directly-ends :
    {V M : Type 0} (parse : String → V ⊎ String) (empty_object : V) (w : World M)
    (policy : RetryPolicy) (breaker : CircuitBreaker) (messages : M)
    → ((request_directly parse empty_object w policy breaker messages).1 ≢ exhausted)
      × (length (request_directly parse empty_object w policy breaker messages).0.asked ≤ 1)
unfolding request_directly
request_directly-ends parse empty_object w policy breaker messages =
    elim (Bool-cases w.cancelled_at_start) [
      | inl e ↦ simp e ((λ h. absurd (ground arith)), omega arith)
      | inr e ↦ simp e (
        direct_outcome-ends ((request_model_once parse empty_object (w.ask 0 messages)).1),
        omega arith,
      )
    ]
