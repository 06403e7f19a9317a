-- ===== src/Turn/Rounds/Paired.antt =====
-- The messages of a turn: every tool call is followed by its results (src/loop_engine.rs).
use dtcoder_test.Prelude.{
  ℕ, zero, suc, ◌+◌, refl, ◌⊎◌, inl, inr, String, Bool, true, false, Option, none, some, List, [],
  ◌∷◌, ◌++◌, length, All, Bool-cases, cap_at, u64_max,
}
use dtcoder_test.Assembler.{ToolCall}
use dtcoder_test.Messages.{Message, text, user}
use dtcoder_test.Messages.Pairing.{IsPaired, Awaits-append}
use dtcoder_test.Provider.Circuit.{CircuitBreaker}
use dtcoder_test.Context.Summary.{SummaryError}
use dtcoder_test.Context.Compress.{prepare}
use dtcoder_test.Context.History.{OnPrepared, prepare-IsPaired}
use dtcoder_test.Turn.Rounds.Bounds.{request-ends}
use dtcoder_test.Turn.Rounds.{Engine, Turn, Ended, new_turn}
use dtcoder_test.Turn.Rounds.Calls.{unless_error}
use dtcoder_test.Turn.Rounds.Steps.{
  request, request_messages, checkpoint_messages, reminder_messages, is_checkpoint, exceeds,
  after_prepare, run_rounds, run_turn,
}
use dtcoder_test.Turn.Rounds.Results.{GivesPaired}
use dtcoder_test.Turn.Rounds.Effects.{PairedTurn}
use dtcoder_test.Turn.Rounds.Ends.{after_request-G}

-- All requests were paired, and the history is where the turn ends with an answer.
abbrev pub EndsPaired : {V : Type 0} → Ended V → Type 0
EndsPaired (t, inl content) = All IsPaired t.requests × IsPaired t.history
EndsPaired (t, inr error) = All IsPaired t.requests

module _ {V : Type 0} (e : Engine V)
    (tools : (round i : ℕ) (c : ToolCall V) → GivesPaired (e.execute round i c)) where
  checkpoint-IsPaired : (round : ℕ) → IsPaired (checkpoint_messages e round)
  checkpoint-IsPaired round = elim (Bool-cases (is_checkpoint round e.round_limit)) [
    | inl h ↦ rw h (refl, refl)
    | inr h ↦ rw h refl
  ]

  reminder-IsPaired : (reminded : Bool) → IsPaired {V = V} (reminder_messages reminded)
  reminder-IsPaired true = (refl, refl)
  reminder-IsPaired false = refl

  request-IsPaired :
      (composed : List (Message V)) (t : Turn V)
      → IsPaired composed
      → IsPaired t.transient_messages
      → IsPaired (request_messages e composed t)
  request-IsPaired composed t c h = Awaits-append [] [] [] composed _ c (
      Awaits-append [] [] [] t.transient_messages _ h (
        Awaits-append [] [] [] (checkpoint_messages e t.round) (reminder_messages t.reminded)
          (checkpoint-IsPaired t.round) (reminder-IsPaired t.reminded)))

  after_prepare-EndsPaired :
      (prepared : (List (Message V) × List (Message V)) ⊎ SummaryError) (t : Turn V)
      (next : Turn V → Ended V)
      → OnPrepared (λ history request. IsPaired history × IsPaired request) prepared
      → IsPaired t.transient_messages
      → All IsPaired t.requests
      → ((t' : Turn V) → PairedTurn t' → All IsPaired t'.requests → EndsPaired (next t'))
      → EndsPaired (after_prepare e prepared t next)
  after_prepare-EndsPaired (inr error) t next p h r g = r
  after_prepare-EndsPaired (inl (history, composed)) t next p h r g =
      let messages = request_messages e composed t in
      let result = request e t.round t.breaker messages in
      let (ended, few) = request-ends e t.round t.breaker messages in
      let all : All IsPaired (messages ∷ t.requests) = (request-IsPaired composed t p.1 h, r) in
      after_request-G e (Unit {0}) (λ w. tools) t.round (messages ∷ t.requests)
        (t.asked + length result.0.asked) EndsPaired (λ t' error s n. rw s.same_requests all)
        (result.1) messages _ next ended (λ t' content s q. (rw s.same_requests all, (q tt).0))
        (record { same_round = refl; same_requests = refl; same_asked = refl }) (λ w. (p.0, h))
        (λ t' s q. g t' (q tt) (rw s.same_requests all))

  run_rounds-EndsPaired :
      (fuel : ℕ) (t : Turn V)
      → PairedTurn t
      → All IsPaired t.requests
      → EndsPaired (run_rounds e fuel t)
  unfolding run_rounds
  run_rounds-EndsPaired zero t p r = r
  run_rounds-EndsPaired (suc fuel) t p r =
      let t' : Turn V = record t { round = cap_at u64_max (t.round + 1) } in
      elim (Bool-cases (exceeds t'.round e.round_limit)) [
        | inl h ↦ rw h r
        | inr h ↦ rw h (
            after_prepare-EndsPaired
              ((prepare (e.outside t'.round) e.manager e.spec_tokens t'.history []).1) t'
              (run_rounds e fuel)
              (prepare-IsPaired (e.outside t'.round) e.manager e.spec_tokens t.history [] p.0) p.1 r
              (run_rounds-EndsPaired fuel))
      ]

  unless_error-EndsPaired :
      (error : Option String) (t : Turn V) (next : Ended V)
      → All IsPaired t.requests
      → EndsPaired next
      → EndsPaired (unless_error error t next)
  unless_error-EndsPaired none t next r h = h
  unless_error-EndsPaired (some error) t next r h = r

  -- A turn on a history in which every tool call is followed by its results, in the order of the
  -- calls, starts each of its requests from messages of which the same holds, whatever the models
  -- and the store do and however often the context is compressed; and where the turn ends with an
  -- answer, the history is such a history again. This takes that the messages which a tool adds for
  -- the next requests have no tool call without a result.
  pub run_turn-EndsPaired :
      (fuel : ℕ) (input : String) (breaker : CircuitBreaker) (history : List (Message V))
      → IsPaired history
      → EndsPaired (run_turn e fuel input breaker history)
  unfolding run_turn
  run_turn-EndsPaired fuel input breaker history p = elim (Bool-cases e.cancelled_at_start) [
    | inl h ↦ simp h tt
    | inr h ↦ simp h (
        unless_error-EndsPaired (e.append_error 0) (new_turn breaker history) _ tt (
          run_rounds-EndsPaired fuel
            (record (new_turn breaker history) {
              history = history ++ (text user input ∷ []);
              recorded = 0 + 1;
            })
            (Awaits-append [] [] [] history (text user input ∷ []) p (refl, refl), refl) tt))
  ]
