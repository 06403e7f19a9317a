-- ===== src/Turn/Rounds/Steps.antt =====
-- src/loop_engine.rs: the rounds of a turn. Each step takes what the turn does after it.
use dtcoder_test.Prelude.{
  ℕ, zero, suc, ◌+◌, ◌-◌, ◌%◌, ◌⊎◌, inl, inr, String, Bool, true, false, not, ◌&&◌, Option, none,
  some, List, [], ◌∷◌, ◌++◌, if◌then◌else◌, ltb, length, max, u64_max, cap_at, ◌==◌,
}
use Prim.Native.String.{◌++◌ as text_append}
use dtcoder_test.Assembler.{ToolCall, Response, text_response, tool_calls, tool_assembly_failed}
use dtcoder_test.Messages.{system, user, Message, text, assistant_with_thinking}
use dtcoder_test.Prelude.Text.{codes}
use dtcoder_test.Provider.Circuit.{CircuitBreaker}
use dtcoder_test.Context.Tokens.{estimate_text_tokens}
use dtcoder_test.Context.Summary.{SummaryError}
use dtcoder_test.Context.Compress.{compact_for_overflow, content_tokens, prepare}
use dtcoder_test.Turn.Stream.{ModelOutput}
use dtcoder_test.Turn.Request.{
  World, Progress, Outcome, answered, failed as request_failed, stopped, exhausted, request_model,
  request_directly,
}
use dtcoder_test.Turn.Rounds.{
  default_progress_checkpoint_rounds, progress_checkpoint_reminder, repetition_reminder, new_turn,
  Engine, Turn, cancelled, round_limit_reached, budget_exhausted, empty_calls, out_of_fuel,
  persistence, context_failed, model_failed, calls_not_assembled, Ended,
}
-- The error of the last call that has one.
use dtcoder_test.Turn.Rounds.Calls.{record_message, reject, after_admission}

abbrev pub exceeds : ℕ → Option ℕ → Bool
exceeds round none = false
exceeds round (some limit) = ltb limit round

abbrev pub is_checkpoint : ℕ → Option ℕ → Bool
is_checkpoint round (some limit) = false
is_checkpoint round none = ltb 1 round && (round - 1) % default_progress_checkpoint_rounds == 0

module _ {V : Type 0} where
  abbrev pub input_tokens : List (Message V) → ℕ
  input_tokens [] = 0
  input_tokens (m ∷ ms) = content_tokens m.content + input_tokens ms

  -- `if let Ok(Some(smaller))`
  abbrev pub smaller_or_none : Option (List (Message V)) ⊎ SummaryError → Option (List (Message V))
  smaller_or_none (inl smaller) = smaller
  smaller_or_none (inr error) = none

  abbrev pub is_text : Response V → Bool
  is_text (text_response content) = true
  is_text other = false

  abbrev pub reminder_messages : Bool → List (Message V)
  reminder_messages reminded = if reminded then text system repetition_reminder ∷ [] else []

module _ {V : Type 0} (e : Engine V) where
  -- The `match output.response`.
  abbrev pub dispatch : Response V → Option String → Turn V → (Turn V → Ended V) → Ended V
  dispatch (text_response content) thinking t next =
      record_message e (assistant_with_thinking content thinking) t (λ t'. (t', inl content))
  dispatch (tool_calls []) thinking t next =
      reject e "[empty_tool_calls] 模型返回了空工具调用列表；请直接回答或生成有效工具调用。" empty_calls t next
  dispatch (tool_calls (call ∷ calls)) thinking t next =
      after_admission e (e.admit_all (call ∷ calls)) (call ∷ calls) thinking t next
  dispatch (tool_assembly_failed error) thinking t next =
      reject e
        (text_append "[tool_call_assembly_error:" (
          text_append error.code
            (text_append "] " (text_append error.message "。本轮没有执行任何工具；请重新生成完整且合法的工具调用。"))))
        (calls_not_assembled error) t next

  abbrev pub calls_tokens : List (ToolCall V) → ℕ
  calls_tokens [] = 0
  calls_tokens (call ∷ calls) =
      estimate_text_tokens (e.arguments_text call.arguments) + calls_tokens calls

  abbrev pub output_tokens : Response V → ℕ
  output_tokens (text_response content) = estimate_text_tokens (codes content)
  output_tokens (tool_calls calls) = calls_tokens calls
  output_tokens (tool_assembly_failed error) = 0

  abbrev pub judge_budget :
      ℕ → ℕ ⊎ String → ℕ → ModelOutput V → Turn V → (Turn V → Ended V) → Ended V
  judge_budget budget (inr error) total output t next = (t, inr (persistence error))
  judge_budget budget (inl measured) total output t next =
      if ltb budget (max measured total) && not (is_text output.response)
      then (t, inr budget_exhausted)
      else dispatch output.response output.thinking t next

  abbrev pub check_budget :
      Option ℕ → List (Message V) → ModelOutput V → Turn V → (Turn V → Ended V) → Ended V
  check_budget none messages output t next = dispatch output.response output.thinking t next
  check_budget (some budget) messages output t next =
      let spent = cap_at u64_max (input_tokens messages + output_tokens output.response) in
      let total = cap_at u64_max (t.estimated_total_tokens + spent) in
      judge_budget budget (e.measured t.round) total output
        (record t { estimated_total_tokens = total }) next

  abbrev pub after_request : Outcome V → List (Message V) → Turn V → (Turn V → Ended V) → Ended V
  after_request (answered output) messages t next =
      check_budget e.total_token_budget messages output t next
  after_request (request_failed error) messages t next = (t, inr (model_failed error))
  after_request stopped messages t next = (t, inr cancelled)
  after_request exhausted messages t next = (t, inr out_of_fuel)

  abbrev pub checkpoint_messages : ℕ → List (Message V)
  checkpoint_messages round =
      if is_checkpoint round e.round_limit
      then text system progress_checkpoint_reminder ∷ []
      else []

  abbrev pub request_messages : List (Message V) → Turn V → List (Message V)
  request_messages composed t =
      composed
      ++ (t.transient_messages ++ (checkpoint_messages t.round ++ reminder_messages t.reminded))

  -- What a request meets in a round: its compaction is that of the context.
  abbrev pub world_of : ℕ → World (List (Message V))
  world_of round = record (e.world round) {
    compact = λ n messages.
        smaller_or_none ((compact_for_overflow (e.outside round) e.manager.config messages []).1);
  }

  abbrev pub request :
      ℕ → CircuitBreaker → List (Message V) → Progress (List (Message V)) × Outcome V
  request round breaker messages =
      if e.has_route
      then request_model e.parse e.empty_object (world_of round) e.policy e.keys breaker messages
      else request_directly e.parse e.empty_object (world_of round) e.policy breaker messages

  abbrev pub after_prepare :
      (List (Message V) × List (Message V)) ⊎ SummaryError → Turn V → (Turn V → Ended V) → Ended V
  after_prepare (inr error) t next = (t, inr (context_failed error))
  after_prepare (inl (history, composed)) t next =
      let messages = request_messages composed t in
      let (p, outcome) = request t.round t.breaker messages in
      after_request outcome messages
        (record t {
          history = history;
          reminded = false;
          requests = messages ∷ t.requests;
          breaker = p.breaker;
          asked = t.asked + length p.asked;
        })
        next

  abbrev pub round_step : Turn V → (Turn V → Ended V) → Ended V
  round_step t next =
      let t' = record t { round = cap_at u64_max (t.round + 1) } in
      if exceeds t'.round e.round_limit
      then (t', inr round_limit_reached)
      else after_prepare ((prepare (e.outside t'.round) e.manager e.spec_tokens t'.history []).1) t'
          next

  -- The `loop`; the first argument is fuel.
  unfoldable pub run_rounds : ℕ → Turn V → Ended V
  run_rounds zero t = (t, inr out_of_fuel)
  run_rounds (suc fuel) t = round_step t (run_rounds fuel)

  unfoldable pub run_turn : ℕ → String → CircuitBreaker → List (Message V) → Ended V
  run_turn fuel input breaker history =
      if e.cancelled_at_start
      then (new_turn breaker history, inr cancelled)
      else record_message e (text user input) (new_turn breaker history) (run_rounds fuel)
