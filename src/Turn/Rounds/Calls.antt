-- ===== src/Turn/Rounds/Calls.antt =====
-- src/loop_engine.rs: the tool calls of a round. Each step takes what the turn does after it.
use dtcoder_test.Prelude.{
  ℕ, ◌+◌, ◌⊎◌, inl, inr, String, Bool, true, false, ◌||◌, Option, none, some, List, [], ◌∷◌, ◌++◌,
  if◌then◌else◌, leb, length, u64_max, cap_at, ◌==◌,
}
use Prim.Native.String.{◌++◌ as text_append}
use dtcoder_test.Assembler.{ToolCall}
use dtcoder_test.Messages.{system, Message, text, tool_result, assistant_tool_calls_with_thinking}
use dtcoder_test.Turn.Repeats.{ToolFingerprint, observe}
use dtcoder_test.Turn.Waves.{execute_in_waves}
use dtcoder_test.Turn.Rounds.{
  max_consecutive_tool_failures, repetition_threshold, repetition_abort_threshold, ToolOutput,
  ToolExecution, AdmissionError, Engine, Turn, TurnError, cancelled, no_progress, persistence,
  calls_refused, tools_failed, Ended,
}

-- The error of the last call that has one.
abbrev pub later_error : Option String → Option String → Option String
later_error (some later) error = some later
later_error none error = error

abbrev pub error_text : String → String
error_text error = text_append "工具执行错误: " error

module _ {V : Type 0} where
  -- `?` on an error of the store or of the session.
  abbrev pub unless_error : Option String → Turn V → Ended V → Ended V
  unless_error none t next = next
  unless_error (some error) t next = (t, inr (persistence error))

  abbrev pub last_error : List (ToolExecution V) → Option String
  last_error [] = none
  last_error (e ∷ es) = later_error (last_error es) e.error

  abbrev pub count_failed : List (ToolExecution V) → ℕ
  count_failed [] = 0
  count_failed (e ∷ es) = (if e.failed then 1 else 0) + count_failed es

  abbrev pub fingerprints : List (ToolExecution V) → List ToolFingerprint
  fingerprints [] = []
  fingerprints (e ∷ es) = e.fingerprint ∷ fingerprints es

  abbrev pub count_failures : ℕ → Turn V → Turn V
  count_failures n t = record t {
    consecutive_tool_failures = cap_at u64_max (t.consecutive_tool_failures + n);
  }

  abbrev pub stop_if_failing : TurnError → Turn V → (Turn V → Ended V) → Ended V
  stop_if_failing error t next =
      if leb max_consecutive_tool_failures t.consecutive_tool_failures
      then (t, inr error)
      else next t

  abbrev pub judge_failures : List (ToolExecution V) → Turn V → (Turn V → Ended V) → Ended V
  judge_failures results t next =
      if count_failed results == 0
      then next (record t { consecutive_tool_failures = 0 })
      else stop_if_failing (tools_failed (last_error results))
          (count_failures (count_failed results) t) next

  abbrev pub judge_repeats : List (ToolExecution V) → Turn V → (Turn V → Ended V) → Ended V
  judge_repeats results t next =
      let detector = observe (fingerprints results) t.repeat_detector in
      let t' = record t {
        repeat_detector = detector;
        reminded = t.reminded || detector.count == repetition_threshold;
      } in
      if leb repetition_abort_threshold detector.count
      then (t', inr no_progress)
      else judge_failures results t' next

module _ {V : Type 0} (e : Engine V) where
  -- `record`: a message that the session does not take is not in the history.
  abbrev pub record_message : Message V → Turn V → (Turn V → Ended V) → Ended V
  record_message m t next =
      unless_error (e.append_error t.recorded) t
        (next (record t { history = t.history ++ (m ∷ []); recorded = t.recorded + 1 }))

  -- A response that cannot be executed: the model is told, and asked again.
  abbrev pub reject : String → TurnError → Turn V → (Turn V → Ended V) → Ended V
  reject note error t next =
      record_message (text system note) (count_failures 1 t) (λ t'. stop_if_failing error t' next)

  abbrev pub execution :
      ToolCall V → String → List (Message V) → Bool → Option String → ToolExecution V
  execution call content transient failed error = record {
    message = tool_result call content;
    transient_messages = transient;
    fingerprint = record {
      tool_name = call.name;
      arguments = e.fingerprint_json call.arguments;
      result = e.fingerprint_text content;
    };
    failed = failed;
    error = error;
  }

  abbrev pub executed : ToolCall V → ToolOutput V ⊎ String → ToolExecution V
  executed call (inl output) = execution call output.content output.transient_messages false none
  executed call (inr error) = execution call (error_text error) [] true (some (error_text error))

  abbrev pub or_error : Option String → ToolExecution V ⊎ String → ToolExecution V ⊎ String
  or_error (some error) result = inr error
  or_error none result = result

  abbrev pub execute_one : ℕ → ℕ → ToolCall V → ToolExecution V ⊎ String
  execute_one round i call =
      or_error (e.start_tool_error round i)
        (or_error (e.finish_tool_error round i) (inl (executed call (e.execute round i call))))

  -- The `for result in results`.
  unfoldable pub record_results : List (ToolExecution V) → Turn V → (Turn V → Ended V) → Ended V
  record_results [] t next = next t
  record_results (r ∷ rs) t next = record_message r.message t (λ t'.
      record_results rs
        (record t' { transient_messages = t'.transient_messages ++ r.transient_messages }) next)

  abbrev pub after_execution :
      List (ToolExecution V) ⊎ String → Turn V → (Turn V → Ended V) → Ended V
  after_execution (inr error) t next = (t, inr (persistence error))
  after_execution (inl results) t next =
      record_results results t
        (λ t'. unless_error (e.finish_batch_error t'.round) t' (judge_repeats results t' next))

  -- The calls are executed unless the turn is cancelled meanwhile.
  abbrev pub execute_calls : List (ToolCall V) → Turn V → (Turn V → Ended V) → Ended V
  execute_calls calls t next =
      if e.cancelled_while_executing t.round
      then (t, inr cancelled)
      else after_execution
          ((execute_in_waves (λ (c : ToolCall V). e.is_read_only c.name) (execute_one t.round)
            (length calls) 0 calls).1)
          t next

  -- The calls were admitted.
  abbrev pub run_calls : List (ToolCall V) → Option String → Turn V → (Turn V → Ended V) → Ended V
  run_calls calls thinking t next = unless_error (e.prepare_batch_error t.round) t (
      record_message (assistant_tool_calls_with_thinking calls thinking) t
        (λ t'. execute_calls calls t' next))

  abbrev pub after_admission :
      Option AdmissionError
      → List (ToolCall V)
      → Option String
      → Turn V
      → (Turn V → Ended V)
      → Ended V
  after_admission none calls thinking t next = run_calls calls thinking t next
  after_admission (some error) calls thinking t next =
      reject
        (text_append "[tool_call_admission_error:" (
          text_append error.code
            (text_append "] " (text_append error.message "。本轮没有执行任何工具；请修正全部调用后重试。"))))
        (calls_refused error) t next
