-- ===== src/Turn/Rounds.antt =====
-- src/loop_engine.rs: the rounds of a turn (`run_turn_inner`, `execute_one`, `record`). What stands
-- outside is an `Engine`: the tools, the store, the session, the messages of the context, and for
-- each round the `World` that its request to the models meets. A lookup or a write that fails gives
-- the text of its error. The order in which the events of tools that run together are emitted, the
-- log and the records of the session's trace are not modelled.
pub mod Calls
pub mod Steps
pub mod Results
pub mod Effects
pub mod Ends
pub mod Bounds
pub mod Paired
use dtcoder_test.Prelude.{
  ℕ, zero, suc, ◌+◌, ◌≡◌, ◌⊎◌, inl, inr, String, Bool, true, false, not, ◌&&◌, ◌||◌, Option, none,
  some, List, [], ◌∷◌, ◌++◌, if◌then◌else◌, ltb, leb, length, max, u64_max, cap_at, ◌==◌,
}
use Prim.Native.String.{◌++◌ as text_append}
use dtcoder_test.Provider.Circuit.{CircuitBreaker}
use dtcoder_test.Provider.Retry.{RetryPolicy}
use dtcoder_test.Assembler.{
  ToolCall, ToolCallStreamError, Response, text_response, tool_calls, tool_assembly_failed,
}
use dtcoder_test.Messages.{
  Role, system, user, Message, text, tool_result, assistant_with_thinking,
  assistant_tool_calls_with_thinking,
}
use dtcoder_test.Context.Summary.{SummaryError}
use dtcoder_test.Context.Compress.{ContextManager, Outside}
use dtcoder_test.Turn.Stream.{ProviderError, ModelOutput}
use dtcoder_test.Turn.Request.{World, Asked}
use dtcoder_test.Turn.Repeats.{ToolFingerprint, RepeatDetector, default as new_detector}

abbrev pub max_consecutive_tool_failures : ℕ
max_consecutive_tool_failures = 3

abbrev pub repetition_threshold : ℕ
repetition_threshold = 3

abbrev pub repetition_abort_threshold : ℕ
repetition_abort_threshold = 10

abbrev pub default_progress_checkpoint_rounds : ℕ
default_progress_checkpoint_rounds = 50

abbrev pub progress_checkpoint_reminder : String
progress_checkpoint_reminder =
    "这是一次长任务的进度检查点，不是终止信号。请核对当前计划和已完成工作：若任务已经完成，立即给出最终结论；若仍有必要工作，继续执行剩余步骤，避免重做已经完成的内容。"

abbrev pub repetition_reminder : String
repetition_reminder = "检测到连续重复的工具调用、参数与结果。可以继续使用任何工具，但请先判断该重复是否必要；若没有新信息，考虑换个思路或直接给出结论。"

pub record ToolOutput (V : Type 0) : Type 0 where
  pub content : String
  pub transient_messages : List (Message V)

pub record ToolExecution (V : Type 0) : Type 0 where
  pub message : Message V
  pub transient_messages : List (Message V)
  pub fingerprint : ToolFingerprint
  pub failed : Bool
  pub error : Option String

-- `ToolAdmissionError`, by its code and its text.
pub record AdmissionError : Type 0 where
  pub code : String
  pub message : String

-- The n-th round, and the position of a call in it, name the times at which the outside is asked.
pub record Engine (V : Type 0) : Type 0 where
  pub parse : String → V ⊎ String
  pub empty_object : V
  pub arguments_text : V → List ℕ
  pub cancelled_at_start : Bool
  pub has_route : Bool
  pub policy : RetryPolicy
  pub keys : List String
  pub round_limit : Option ℕ
  pub total_token_budget : Option ℕ
  pub manager : ContextManager
  pub spec_tokens : ℕ
  -- the outside that `context.prepare` meets
  pub outside : ℕ → Outside V
  -- what the requests of a round meet; its `compact` is not read
  pub world : ℕ → World (List (Message V))
  -- `store.provider_usage`, the sum of its input and output tokens
  pub measured : ℕ → ℕ ⊎ String
  pub admit_all : List (ToolCall V) → Option AdmissionError
  pub is_read_only : String → Bool
  pub execute : ℕ → ℕ → ToolCall V → ToolOutput V ⊎ String
  pub cancelled_while_executing : ℕ → Bool
  -- the errors of the store and of the session
  pub prepare_batch_error : ℕ → Option String
  pub start_tool_error : ℕ → ℕ → Option String
  pub finish_tool_error : ℕ → ℕ → Option String
  pub finish_batch_error : ℕ → Option String
  pub append_error : ℕ → Option String
  -- the fingerprints of arguments and of a text
  pub fingerprint_json : V → ℕ
  pub fingerprint_text : String → ℕ

pub data TurnError : Type 0 where
  cancelled round_limit_reached budget_exhausted empty_calls no_progress out_of_fuel : TurnError
  persistence : String → TurnError
  context_failed : SummaryError → TurnError
  model_failed : ProviderError → TurnError
  calls_refused : AdmissionError → TurnError
  calls_not_assembled : ToolCallStreamError → TurnError
  tools_failed : Option String → TurnError

-- What a turn keeps. `recorded` counts the messages that were recorded, `requests` are the messages
-- of the requests, newest first, and `asked` counts the attempts of all requests.
pub record Turn (V : Type 0) : Type 0 where
  pub history : List (Message V)
  pub transient_messages : List (Message V)
  pub repeat_detector : RepeatDetector
  pub reminded : Bool
  pub consecutive_tool_failures : ℕ
  pub estimated_total_tokens : ℕ
  pub round : ℕ
  pub breaker : CircuitBreaker
  pub recorded : ℕ
  pub requests : List (List (Message V))
  pub asked : ℕ

-- The turn, and its text or the error that it ends with.
abbrev pub Ended : Type 0 → Type 0
Ended V = Turn V × (String ⊎ TurnError)

abbrev pub new_turn : {V : Type 0} → CircuitBreaker → List (Message V) → Turn V
new_turn breaker history = record {
  history = history;
  transient_messages = [];
  repeat_detector = new_detector;
  reminded = false;
  consecutive_tool_failures = 0;
  estimated_total_tokens = 0;
  round = 0;
  breaker = breaker;
  recorded = 0;
  requests = [];
  asked = 0;
}
