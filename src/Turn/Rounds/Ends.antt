-- ===== src/Turn/Rounds/Ends.antt =====
-- What a round leaves behind after its request (src/loop_engine.rs).
use dtcoder_test.Prelude.{
  ℕ, ◌≢◌, refl, ◌⊎◌, inl, inr, String, Option, none, some, List, [], ◌∷◌, ltb, ◌&&◌, not, max,
  arith, Bool-cases,
}
use dtcoder_test.Assembler.{ToolCall, Response, text_response, tool_calls, tool_assembly_failed}
use dtcoder_test.Messages.{Message, assistant_with_thinking}
use dtcoder_test.Messages.Pairing.{Awaits-append}
use dtcoder_test.Turn.Stream.{ModelOutput}
use dtcoder_test.Turn.Request.{Outcome, answered, failed as request_failed, stopped, exhausted}
use dtcoder_test.Turn.Rounds.{
  Engine, Turn, TurnError, cancelled, budget_exhausted, empty_calls, out_of_fuel, persistence,
  model_failed, calls_not_assembled, Ended,
}
use dtcoder_test.Turn.Rounds.Steps.{is_text, dispatch, judge_budget, check_budget, after_request}
use dtcoder_test.Turn.Rounds.Results.{GivesPaired}
use dtcoder_test.Turn.Rounds.Effects.{
  Same, PairedTurn, record_message-G, reject-G, after_admission-G,
}

-- W is what the pairing of the messages rests on.
module _ {V : Type 0} (e : Engine V) (W : Type 0)
    (tools : W → (round i : ℕ) (c : ToolCall V) → GivesPaired (e.execute round i c)) (round : ℕ)
    (requests : List (List (Message V))) (asked : ℕ) (G : Ended V → Type 0)
    (fails : (t : Turn V) (error : TurnError)
      → Same round requests asked t
      → error ≢ out_of_fuel
      → G (t, inr error)) where
  abbrev Here : Turn V → Type 0
  Here = Same round requests asked

  -- The turn goes on well from every state that is like the present one and paired.
  abbrev GoesOn : (Turn V → Ended V) → Type 0
  GoesOn next = (t : Turn V) → Here t → (W → PairedTurn t) → G (next t)

  abbrev Finishes : Type 0
  Finishes = (t : Turn V) (content : String) → Here t → (W → PairedTurn t) → G (t, inl content)

  dispatch-G :
      (response : Response V) (thinking : Option String) (t : Turn V) (next : Turn V → Ended V)
      → Finishes
      → Here t
      → (W → PairedTurn t)
      → GoesOn next
      → G (dispatch e response thinking t next)
  dispatch-G (text_response content) thinking t next f s p g =
      record_message-G e W tools round requests asked G fails
        (assistant_with_thinking content thinking) t _ s
        (λ t' s' h k.
          f t' content s'
            (λ w. (rw h (Awaits-append [] [] [] t.history _ (p w).0 (refl, refl)), rw k ((p w).1))))
  dispatch-G (tool_calls []) thinking t next f s p g =
      reject-G e W tools round requests asked G fails _ empty_calls t next
        (λ z. absurd (ground arith)) s p g
  dispatch-G (tool_calls (call ∷ calls)) thinking t next f s p g =
      after_admission-G e W tools round requests asked G fails (e.admit_all (call ∷ calls))
        (call ∷ calls) thinking t next s p g
  dispatch-G (tool_assembly_failed error) thinking t next f s p g =
      reject-G e W tools round requests asked G fails _ (calls_not_assembled error) t next
        (λ z. absurd (ground arith)) s p g

  judge_budget-G :
      (budget : ℕ) (measured : ℕ ⊎ String) (total : ℕ) (output : ModelOutput V) (t : Turn V)
      (next : Turn V → Ended V)
      → Finishes
      → Here t
      → (W → PairedTurn t)
      → GoesOn next
      → G (judge_budget e budget measured total output t next)
  judge_budget-G budget (inr error) total output t next f s p g =
      fails t (persistence error) s (λ z. absurd (ground arith))
  judge_budget-G budget (inl measured) total output t next f s p g =
      elim (Bool-cases (ltb budget (max measured total) && not (is_text output.response))) [
        | inl h ↦ rw h (fails t budget_exhausted s (λ z. absurd (ground arith)))
        | inr h ↦ rw h (dispatch-G output.response output.thinking t next f s p g)
      ]

  pub check_budget-G :
      (budget : Option ℕ) (messages : List (Message V)) (output : ModelOutput V) (t : Turn V)
      (next : Turn V → Ended V)
      → Finishes
      → Here t
      → (W → PairedTurn t)
      → GoesOn next
      → G (check_budget e budget messages output t next)
  check_budget-G none messages output t next f s p g =
      dispatch-G output.response output.thinking t next f s p g
  check_budget-G (some budget) messages output t next f s p g =
      judge_budget-G budget (e.measured t.round) _ output _ next f
        (record {
          same_round = s.same_round;
          same_requests = s.same_requests;
          same_asked = s.same_asked;
        })
        p g

  pub after_request-G :
      (outcome : Outcome V) (messages : List (Message V)) (t : Turn V) (next : Turn V → Ended V)
      → outcome ≢ exhausted
      → Finishes
      → Here t
      → (W → PairedTurn t)
      → GoesOn next
      → G (after_request e outcome messages t next)
  after_request-G (answered output) messages t next n f s p g =
      check_budget-G e.total_token_budget messages output t next f s p g
  after_request-G (request_failed error) messages t next n f s p g =
      fails t (model_failed error) s (λ z. absurd (ground arith))
  after_request-G stopped messages t next n f s p g =
      fails t cancelled s (λ z. absurd (ground arith))
  after_request-G exhausted messages t next n f s p g = absurd (n refl)
