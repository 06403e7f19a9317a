-- ===== src/Turn/Rounds/Bounds.antt =====
-- How long a turn lasts (src/loop_engine.rs).
use dtcoder_test.Prelude.{
  ℕ, zero, suc, ◌+◌, ◌*◌, ◌≤◌, ◌≡◌, ◌≢◌, refl, sym, ap, ◌∙◌, ◌⊎◌, inl, inr, String, Option, none,
  some, List, [], ◌∷◌, ◌++◌, length, arith, Bool-cases, ltb→le, ◌<◌, cap_at, u64_max,
}
use native.Mathlib.Nat.{mul-le-mul_right}
use dtcoder_test.Messages.{Message, text, user}
use dtcoder_test.Provider.Circuit.{CircuitBreaker}
use dtcoder_test.Context.Summary.{SummaryError}
use dtcoder_test.Context.Compress.{prepare}
use dtcoder_test.Turn.Request.{most_retries, exhausted}
use dtcoder_test.Turn.Request.Bounds.{request_model-ends, request_directly-ends}
use dtcoder_test.Turn.Rounds.{Engine, Turn, out_of_fuel, Ended, new_turn}
use dtcoder_test.Turn.Rounds.Calls.{unless_error}
use dtcoder_test.Turn.Rounds.Steps.{
  request, world_of, request_messages, exceeds, after_prepare, run_rounds, run_turn,
}
use dtcoder_test.Turn.Rounds.Effects.{}
use dtcoder_test.Turn.Rounds.Ends.{after_request-G}

one_more-times : (a r m : ℕ) → a ≤ r * m → a + m ≤ (r + 1) * m
one_more-times a r m h = omega arith

module _ {V : Type 0} (e : Engine V) where
  -- The attempts that one round makes at most.
  abbrev pub most_attempts : ℕ
  most_attempts = length e.keys * (most_retries e.policy + 1) + 1

  pub request-ends :
      (round : ℕ) (breaker : CircuitBreaker) (messages : List (Message V))
      → ((request e round breaker messages).1 ≢ exhausted)
        × (length (request e round breaker messages).0.asked ≤ most_attempts)
  request-ends round breaker messages =
      let one =
        request_directly-ends e.parse e.empty_object (world_of e round) e.policy breaker messages in
      elim (Bool-cases e.has_route) [
        | inl h ↦ rw h (
            request_model-ends e.parse e.empty_object (world_of e round) e.policy e.keys breaker
              messages)
        | inr h ↦ rw h (one.0, omega (arith, one.1))
      ]

  abbrev pub IsBounded : ℕ → Ended V → Type 0
  IsBounded limit (t, out) =
      (out ≢ inr out_of_fuel) × (length t.requests ≤ limit) × (t.asked ≤ limit * most_attempts)

  after_prepare-IsBounded :
      (limit : ℕ) (prepared : (List (Message V) × List (Message V)) ⊎ SummaryError) (t : Turn V)
      (next : Turn V → Ended V)
      → length t.requests + 1 ≤ limit
      → t.asked + most_attempts ≤ limit * most_attempts
      → ((t' : Turn V)
          → t'.round ≡ t.round
          → length t'.requests ≤ length t.requests + 1
          → t'.asked ≤ t.asked + most_attempts
          → IsBounded limit (next t'))
      → IsBounded limit (after_prepare e prepared t next)
  after_prepare-IsBounded limit (inr error) t next r a g =
      ((λ z. absurd (ground arith)), omega arith, omega arith)
  after_prepare-IsBounded limit (inl (history, composed)) t next r a g =
      let messages = request_messages e composed t in
      let result = request e t.round t.breaker messages in
      let (ended, few) = request-ends t.round t.breaker messages in
      after_request-G e ⊥ (λ w. absurd w) t.round (messages ∷ t.requests)
        (t.asked + length result.0.asked) (IsBounded limit)
        (λ t' error s n. (
          (λ z. n (ground arith)),
          omega (arith, ap length s.same_requests),
          omega (arith, s.same_asked),
        ))
        (result.1) messages _ next ended
        (λ t' content s p. (
          (λ z. absurd (ground arith)),
          omega (arith, ap length s.same_requests),
          omega (arith, s.same_asked),
        ))
        (record { same_round = refl; same_requests = refl; same_asked = refl }) (λ w. absurd w)
        (λ t' s p.
          g t' s.same_round (omega (arith, ap length s.same_requests))
            (omega (arith, s.same_asked)))

  run_rounds-IsBounded :
      (limit fuel : ℕ) (t : Turn V)
      → e.round_limit ≡ some limit
      → limit < u64_max
      → limit + 1 ≤ fuel + t.round
      → t.round ≤ limit
      → length t.requests ≤ t.round
      → t.asked ≤ t.round * most_attempts
      → IsBounded limit (run_rounds e fuel t)
  unfolding run_rounds
  run_rounds-IsBounded limit zero t l m f c r a = absurd (omega arith)
  run_rounds-IsBounded limit (suc fuel) t l m f c r a =
      let t' : Turn V = record t { round = cap_at u64_max (t.round + 1) } in
      let counted : cap_at u64_max (t.round + 1) ≡ t.round + 1 = ground arith in
      let spent : t.asked ≤ limit * most_attempts =
        omega (arith, mul-le-mul_right {m = t.round} {n = limit} most_attempts c) in
      elim (Bool-cases (exceeds t'.round e.round_limit)) [
        | inl h ↦ rw h ((λ z. absurd (ground arith)), omega arith, spent)
        | inr h ↦
            let room : t.round + 1 ≤ limit = ltb→le limit (t.round + 1) (rw (l, counted) at h) in
            let one_more : t.asked + most_attempts ≤ (t.round + 1) * most_attempts =
              one_more-times t.asked t.round most_attempts a in
            rw h (
              after_prepare-IsBounded limit
                ((prepare (e.outside t'.round) e.manager e.spec_tokens t'.history []).1) t'
                (run_rounds e fuel) (omega arith)
                (omega (arith, mul-le-mul_right {m = t.round + 1} {n = limit} most_attempts room))
                (λ q same few less.
                  let here : q.round ≡ t.round + 1 = same ∙ counted in
                  run_rounds-IsBounded limit fuel q l m (omega arith) (omega arith) (omega arith) (
                    let k : (t.round + 1) * most_attempts ≡ q.round * most_attempts =
                      ap (λ (x : ℕ). x * most_attempts) (sym here) in
                    omega arith)))
      ]

  unless_error-IsBounded :
      (limit : ℕ) (error : Option String) (t : Turn V) (next : Ended V)
      → length t.requests ≤ limit
      → t.asked ≤ limit * most_attempts
      → IsBounded limit next
      → IsBounded limit (unless_error error t next)
  unless_error-IsBounded limit none t next r a h = h
  unless_error-IsBounded limit (some error) t next r a h = ((λ z. absurd (ground arith)), r, a)

  -- A turn with a limit of n rounds, below the largest `usize`, ends whatever the models, the tools and the store do: with n + 1
  -- as fuel it never runs out, it sends n requests at most, and the attempts of all requests
  -- together are at most n times those that one request may make.
  pub run_turn-IsBounded :
      (limit : ℕ) (input : String) (breaker : CircuitBreaker) (history : List (Message V))
      → e.round_limit ≡ some limit
      → limit < u64_max
      → IsBounded limit (run_turn e (limit + 1) input breaker history)
  unfolding run_turn
  run_turn-IsBounded limit input breaker history l m = elim (Bool-cases e.cancelled_at_start) [
    | inl h ↦ simp h ((λ z. absurd (ground arith)), omega arith, omega arith)
    | inr h ↦ simp h (
        unless_error-IsBounded limit (e.append_error 0) (new_turn breaker history) _ (omega arith)
          (omega arith)
          (run_rounds-IsBounded limit (limit + 1)
            (record (new_turn breaker history) {
              history = history ++ (text user input ∷ []);
              recorded = 0 + 1;
            })
            l m (omega arith) (omega arith) (omega arith) (omega arith)))
  ]
