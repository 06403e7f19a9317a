-- ===== src/Turn/Rounds/Effects.antt =====
-- What the tool calls of a round leave behind (src/loop_engine.rs): each lemma says of one step
-- that the turn has a property G if G holds of every way in which the step may end or go on.
use dtcoder_test.Prelude.{
  ℕ, ◌+◌, ◌≡◌, ◌≢◌, refl, ◌⊎◌, inl, inr, String, Option, none, some, List, [], ◌∷◌, ◌++◌, length,
  leb, ◌||◌, ◌==◌, arith, Bool-cases,
}
use dtcoder_test.Assembler.{ToolCall}
use dtcoder_test.Messages.{Message, text, system, tool, assistant_tool_calls_with_thinking}
use dtcoder_test.Messages.Pairing.{ids, Awaits, IsPaired, Awaits-append}
use dtcoder_test.Turn.Repeats.{observe}
use dtcoder_test.Turn.Waves.{execute_in_waves}
use dtcoder_test.Turn.Waves.Order.{execute_in_waves-collect}
use dtcoder_test.Turn.Rounds.{
  max_consecutive_tool_failures, repetition_threshold, repetition_abort_threshold, ToolExecution,
  AdmissionError, Engine, Turn, TurnError, cancelled, no_progress, out_of_fuel, persistence,
  calls_refused, tools_failed, Ended,
}
use dtcoder_test.Turn.Rounds.Calls.{
  unless_error, last_error, count_failed, fingerprints, record_message, count_failures,
  stop_if_failing, reject, execute_one, record_results, judge_failures, judge_repeats,
  after_execution, execute_calls, run_calls, after_admission,
}
use dtcoder_test.Turn.Rounds.Results.{GivesPaired, Results, OnResults, collect-OnResults}

-- What a round does not change after its request.
pub record Same {V : Type 0} (round : ℕ) (requests : List (List (Message V))) (asked : ℕ)
    (t : Turn V) : Type 0 where
  pub same_round : t.round ≡ round
  pub same_requests : t.requests ≡ requests
  pub same_asked : t.asked ≡ asked

abbrev pub PairedTurn : {V : Type 0} → Turn V → Type 0
PairedTurn t = IsPaired t.history × IsPaired t.transient_messages

result-Awaits :
    {V : Type 0} (id : String) (awaited : List String) (m : Message V)
    → m.role ≡ tool
    → m.tool_call_id ≡ some id
    → Awaits (id ∷ awaited) (m ∷ []) awaited
result-Awaits id awaited m r h = rw r (h, refl)

-- W is what the pairing of the messages rests on.
module _ {V : Type 0} (e : Engine V) (W : Type 0)
    (tools : W → (round i : ℕ) (c : ToolCall V) → GivesPaired (e.execute round i c)) (round : ℕ)
    (requests : List (List (Message V))) (asked : ℕ) (G : Ended V → Type 0)
    (fails : (t : Turn V) (error : TurnError)
      → Same round requests asked t
      → error ≢ out_of_fuel
      → G (t, inr error)) where
  abbrev pub Here : Turn V → Type 0
  Here = Same round requests asked

  -- The turn goes on well from every state that is like the present one and paired.
  abbrev pub GoesOn : (Turn V → Ended V) → Type 0
  GoesOn next = (t : Turn V) → Here t → (W → PairedTurn t) → G (next t)

  unless_error-G :
      (error : Option String) (t : Turn V) (next : Ended V)
      → Here t
      → G next
      → G (unless_error error t next)
  unless_error-G none t next s g = g
  unless_error-G (some error) t next s g =
      fails t (persistence error) s (λ h. absurd (ground arith))

  pub record_message-G :
      (m : Message V) (t : Turn V) (next : Turn V → Ended V)
      → Here t
      → ((t' : Turn V)
          → Here t'
          → t'.history ≡ t.history ++ (m ∷ [])
          → t'.transient_messages ≡ t.transient_messages
          → G (next t'))
      → G (record_message e m t next)
  record_message-G m t next s g =
      let t' : Turn V = record t { history = t.history ++ (m ∷ []); recorded = t.recorded + 1 } in
      unless_error-G (e.append_error t.recorded) t (next t') s (
        g t'
          (record {
            same_round = s.same_round;
            same_requests = s.same_requests;
            same_asked = s.same_asked;
          })
          refl refl)

  stop_if_failing-G :
      (error : TurnError) (t : Turn V) (next : Turn V → Ended V)
      → error ≢ out_of_fuel
      → Here t
      → G (next t)
      → G (stop_if_failing error t next)
  stop_if_failing-G error t next n s g =
      elim (Bool-cases (leb max_consecutive_tool_failures t.consecutive_tool_failures)) [
        | inl h ↦ rw h (fails t error s n)
        | inr h ↦ rw h g
      ]

  pub reject-G :
      (note : String) (error : TurnError) (t : Turn V) (next : Turn V → Ended V)
      → error ≢ out_of_fuel
      → Here t
      → (W → PairedTurn t)
      → GoesOn next
      → G (reject e note error t next)
  reject-G note error t next n s p g =
      let counted : Here (count_failures 1 t) = record {
        same_round = s.same_round;
        same_requests = s.same_requests;
        same_asked = s.same_asked;
      } in
      record_message-G (text system note) (count_failures 1 t) _ counted (λ t' s' h k.
        stop_if_failing-G error t' next n s' (
          g t' s' (λ w. (
            rw h (Awaits-append [] [] [] t.history (text system note ∷ []) (p w).0 (refl, refl)),
            rw k ((p w).1),
          ))))

  judge_failures-G :
      (results : List (ToolExecution V)) (t : Turn V) (next : Turn V → Ended V)
      → Here t
      → (W → PairedTurn t)
      → GoesOn next
      → G (judge_failures results t next)
  judge_failures-G results t next s p g = elim (Bool-cases (count_failed results == 0)) [
    | inl h ↦ rw h (
        g (record t { consecutive_tool_failures = 0 })
          (record {
            same_round = s.same_round;
            same_requests = s.same_requests;
            same_asked = s.same_asked;
          })
          p)
    | inr h ↦
        let counted : Here (count_failures (count_failed results) t) = record {
          same_round = s.same_round;
          same_requests = s.same_requests;
          same_asked = s.same_asked;
        } in
        rw h (
          stop_if_failing-G (tools_failed (last_error results))
            (count_failures (count_failed results) t) next (λ z. absurd (ground arith)) counted
            (g (count_failures (count_failed results) t) counted p))
  ]

  judge_repeats-G :
      (results : List (ToolExecution V)) (t : Turn V) (next : Turn V → Ended V)
      → Here t
      → (W → PairedTurn t)
      → GoesOn next
      → G (judge_repeats results t next)
  judge_repeats-G results t next s p g =
      let detector = observe (fingerprints results) t.repeat_detector in
      let t' : Turn V = record t {
        repeat_detector = detector;
        reminded = t.reminded || detector.count == repetition_threshold;
      } in
      let s' : Here t' = record {
        same_round = s.same_round;
        same_requests = s.same_requests;
        same_asked = s.same_asked;
      } in
      elim (Bool-cases (leb repetition_abort_threshold detector.count)) [
        | inl h ↦ rw h (fails t' no_progress s' (λ z. absurd (ground arith)))
        | inr h ↦ rw h (judge_failures-G results t' next s' p g)
      ]

  record_results-G :
      (calls : List (ToolCall V)) (results : List (ToolExecution V)) (t : Turn V)
      (next : Turn V → Ended V)
      → (W → Results calls results)
      → Here t
      → (W → Awaits [] t.history (ids calls) × IsPaired t.transient_messages)
      → GoesOn next
      → G (record_results e results t next)
  unfolding record_results
  record_results-G [] [] t next r s p g = g t s p
  record_results-G (c ∷ cs) [] t next r s p g = g t s (λ w. absurd (r w))
  record_results-G [] (x ∷ xs) t next r s p g = record_message-G x.message t _ s (λ t' s' h k.
      record_results-G [] xs
        (record t' { transient_messages = t'.transient_messages ++ x.transient_messages }) next
        (λ w. absurd (r w))
        (record {
          same_round = s'.same_round;
          same_requests = s'.same_requests;
          same_asked = s'.same_asked;
        })
        (λ w. absurd (r w)) g)
  record_results-G (c ∷ cs) (x ∷ xs) t next r s p g = record_message-G x.message t _ s (λ t' s' h k.
      record_results-G cs xs
        (record t' { transient_messages = t'.transient_messages ++ x.transient_messages }) next
        (λ w. (r w).3)
        (record {
          same_round = s'.same_round;
          same_requests = s'.same_requests;
          same_asked = s'.same_asked;
        })
        (λ w. (
          rw h (
              Awaits-append [] (ids (c ∷ cs)) (ids cs) t.history (x.message ∷ []) (p w).0
                (result-Awaits c.id (ids cs) x.message (r w).0 (r w).1)),
          rw k (Awaits-append [] [] [] t.transient_messages x.transient_messages (p w).1 (r w).2),
        ))
        g)

  after_execution-G :
      (calls : List (ToolCall V)) (results : List (ToolExecution V) ⊎ String) (t : Turn V)
      (next : Turn V → Ended V)
      → (W → OnResults calls results)
      → Here t
      → (W → Awaits [] t.history (ids calls) × IsPaired t.transient_messages)
      → GoesOn next
      → G (after_execution e results t next)
  after_execution-G calls (inr error) t next r s p g =
      fails t (persistence error) s (λ z. absurd (ground arith))
  after_execution-G calls (inl results) t next r s p g =
      record_results-G calls results t _ r s p (λ t' s' p'.
        unless_error-G (e.finish_batch_error t'.round) t' (judge_repeats results t' next) s'
          (judge_repeats-G results t' next s' p' g))

  execute_calls-G :
      (calls : List (ToolCall V)) (t : Turn V) (next : Turn V → Ended V)
      → Here t
      → (W → Awaits [] t.history (ids calls) × IsPaired t.transient_messages)
      → GoesOn next
      → G (execute_calls e calls t next)
  execute_calls-G calls t next s p g =
      let is_read = λ (c : ToolCall V). e.is_read_only c.name in
      elim (Bool-cases (e.cancelled_while_executing t.round)) [
        | inl b ↦ rw b (fails t cancelled s (λ z. absurd (ground arith)))
        | inr b ↦ rw b (
            after_execution-G calls
              ((execute_in_waves is_read (execute_one e t.round) (length calls) 0 calls).1) t next
              (λ w.
                rw
                  (execute_in_waves-collect is_read (execute_one e t.round) (length calls) 0 calls
                    (omega arith))
                  (collect-OnResults e (tools w) t.round 0 calls))
              s p g)
      ]

  run_calls-G :
      (calls : List (ToolCall V)) (thinking : Option String) (t : Turn V) (next : Turn V → Ended V)
      → Here t
      → (W → PairedTurn t)
      → GoesOn next
      → G (run_calls e calls thinking t next)
  run_calls-G calls thinking t next s p g =
      let m = assistant_tool_calls_with_thinking calls thinking in
      unless_error-G (e.prepare_batch_error t.round) t
        (record_message e m t (λ t'. execute_calls e calls t' next)) s
        (record_message-G m t (λ t'. execute_calls e calls t' next) s
          (λ t' s' h k.
            execute_calls-G calls t' next s'
              (λ w. (
                rw h (Awaits-append [] [] (ids calls) t.history (m ∷ []) (p w).0 (refl, refl)),
                rw k ((p w).1),
              ))
              g))

  pub after_admission-G :
      (refusal : Option AdmissionError) (calls : List (ToolCall V)) (thinking : Option String)
      (t : Turn V) (next : Turn V → Ended V)
      → Here t
      → (W → PairedTurn t)
      → GoesOn next
      → G (after_admission e refusal calls thinking t next)
  after_admission-G none calls thinking t next s p g = run_calls-G calls thinking t next s p g
  after_admission-G (some error) calls thinking t next s p g =
      reject-G _ (calls_refused error) t next (λ z. absurd (ground arith)) s p g
