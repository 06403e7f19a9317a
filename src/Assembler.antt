-- ===== src/Assembler.antt =====
-- src/tool_calls.rs: the text and the tool calls of a streamed response, put together from its
-- events. An execution identity stands as its encoding, which is injective (`decode` of
-- src/provider.rs undoes `encode`). The type of JSON values, the empty object and the parser are
-- parameters; the parser answers a value or the text of its error. The usage that an event carries
-- is not read here.
pub mod Laws
pub mod Fragments
use dtcoder_test.Prelude.{
  ◌≡◌, ◌⊎◌, inl, inr, String, Bool, true, false, not, ◌&&◌, ◌||◌, Option, none, some, List, [], ◌∷◌,
  ◌++◌, if◌then◌else◌, is_some,
}
use dtcoder_test.Prelude.Text.{is_blank}
use dtcoder_test.Provider.Attempt.{ProviderUsage}
use dtcoder_test.Prelude.Dict.{lookup, insert}
use Prim.Native.String.{◌++◌ as text_append}

pub record ToolCallStreamError : Type 0 where
  pub code : String
  pub message : String

pub data ToolArgumentsFragment : Type 0 where
  append authoritative_snapshot : String → ToolArgumentsFragment

pub data ProviderEvent : Type 0 where
  response_started protocol_done output_truncated : ProviderEvent
  usage : ProviderUsage → ProviderEvent
  text_delta thinking_delta : String → ProviderEvent
  tool_call_started : String → String → ProviderEvent
  tool_call_delta : String → ToolArgumentsFragment → ProviderEvent
  tool_call_completed : String → ProviderEvent
  tool_call_failed : ToolCallStreamError → ProviderEvent

pub record PendingCall : Type 0 where
  pub name : String
  pub arguments : String
  pub snapshot_seen : Bool
  pub completed : Bool

pub record ToolCallAssembler : Type 0 where
  pub text : String
  pub calls : List (String × PendingCall)
  pub order : List String
  pub failure : Option ToolCallStreamError
  pub output_truncated : Bool

abbrev pub default : ToolCallAssembler
default = record { text = ""; calls = []; order = []; failure = none; output_truncated = false }

abbrev pub set_failure : String → String → Option ToolCallStreamError → Option ToolCallStreamError
set_failure code message none = some (record { code = code; message = message })
set_failure code message (some e) = some e

-- `fail`: the first failure is kept.
abbrev pub fail : String → String → ToolCallAssembler → ToolCallAssembler
fail code message s = record s { failure = set_failure code message s.failure }

abbrev pub set_call : String → PendingCall → ToolCallAssembler → ToolCallAssembler
set_call id call s = record s { calls = insert id call s.calls }

abbrev pub start_call : String → String → ToolCallAssembler → ToolCallAssembler
start_call id name s = record s {
  order = s.order ++ (id ∷ []);
  calls =
      insert id (record { name = name; arguments = ""; snapshot_seen = false; completed = false })
        s.calls;
}

abbrev pub add_fragment :
    String → ToolArgumentsFragment → PendingCall → ToolCallAssembler → ToolCallAssembler
add_fragment id (append fragment) call s =
    if call.snapshot_seen
    then fail "delta_after_snapshot" (text_append "权威快照后收到增量分片：" id) s
    else set_call id (record call { arguments = text_append call.arguments fragment }) s
add_fragment id (authoritative_snapshot snapshot) call s =
    if call.snapshot_seen
    then fail "duplicate_snapshot" (text_append "调用收到重复权威快照：" id) s
    else set_call id (record call { arguments = snapshot; snapshot_seen = true }) s

abbrev pub accept_delta :
    String → ToolArgumentsFragment → Option PendingCall → ToolCallAssembler → ToolCallAssembler
accept_delta id fragment none s = fail "anonymous_delta" (text_append "arguments 分片没有已开始的调用：" id) s
accept_delta id fragment (some call) s =
    if call.completed
    then fail "delta_after_complete" (text_append "已完成调用收到迟到分片：" id) s
    else add_fragment id fragment call s

abbrev pub accept_completed : String → Option PendingCall → ToolCallAssembler → ToolCallAssembler
accept_completed id none s = fail "complete_without_start" (text_append "工具完成事件没有对应开始：" id) s
accept_completed id (some call) s =
    if call.completed
    then fail "duplicate_complete" (text_append "工具调用重复完成：" id) s
    else set_call id (record call { completed = true }) s

-- The `match event` of `accept`, where nothing has failed before.
abbrev pub accept_event : ProviderEvent → ToolCallAssembler → ToolCallAssembler
accept_event response_started s = s
accept_event protocol_done s = s
accept_event (usage u) s = s
accept_event (text_delta delta) s = record s { text = text_append s.text delta }
accept_event (thinking_delta delta) s = s
accept_event output_truncated s = record s { output_truncated = true }
accept_event (tool_call_started id name) s =
    if is_blank name
    then fail "missing_name" "工具调用名称为空" s
    else if is_some (lookup id s.calls)
    then fail "identity_conflict" (text_append "execution identity 重复开始：" id) s
    else start_call id name s
accept_event (tool_call_delta id fragment) s = accept_delta id fragment (lookup id s.calls) s
accept_event (tool_call_completed id) s = accept_completed id (lookup id s.calls) s
accept_event (tool_call_failed error) s = record s { failure = some error }

-- What `accept` returns: the text to show.
abbrev pub shown : ProviderEvent → Option String
shown (text_delta delta) = some delta
shown _ = none

unfoldable pub accept : ProviderEvent → ToolCallAssembler → ToolCallAssembler × Option String
accept event s = (if is_some s.failure then s else accept_event event s, shown event)

-- The events of a stream, in order, as `collect_provider_response` feeds them.
unfoldable pub accept_all : List ProviderEvent → ToolCallAssembler → ToolCallAssembler
accept_all [] s = s
accept_all (e ∷ es) s = accept_all es (accept e s).0

pub record ToolCall (V : Type 0) : Type 0 where
  pub id : String
  pub name : String
  pub arguments : V

pub data Response (V : Type 0) : Type 0 where
  text_response : String → Response V
  tool_calls : List (ToolCall V) → Response V
  tool_assembly_failed : ToolCallStreamError → Response V

abbrev pub failed_with : {V : Type 0} → String → String → Response V
failed_with code message = tool_assembly_failed (record { code = code; message = message })

abbrev pub is_incomplete : Option PendingCall → Bool
is_incomplete none = false
is_incomplete (some call) = not call.completed

-- The first identity of `order` whose call is not completed.
abbrev pub first_incomplete : List String → List (String × PendingCall) → Option String
first_incomplete [] calls = none
first_incomplete (id ∷ ids) calls =
    let rest = first_incomplete ids calls in
    if is_incomplete (lookup id calls) then some id else rest

abbrev pub is_nil : List (String × PendingCall) → Bool
is_nil [] = true
is_nil (c ∷ cs) = false

module _ {V : Type 0} (parse : String → V ⊎ String) (empty_object : V) where
  -- `serde_json::from_str` of the arguments, where blank text stands for no arguments.
  abbrev pub arguments_of : String → V ⊎ String
  arguments_of text = if is_blank text then inl empty_object else parse text

  abbrev pub output_call :
      String
      → PendingCall
      → V ⊎ String
      → List (ToolCall V)
      → (List (ToolCall V) → Response V)
      → Response V
  output_call id call (inl value) output next =
      next (output ++ (record { id = id; name = call.name; arguments = value } ∷ []))
  output_call id call (inr error) output next =
      failed_with "invalid_json"
        (text_append "工具 " (text_append call.name (text_append " 的 arguments 不是合法 JSON：" error)))

  abbrev pub output_found :
      String
      → Option PendingCall
      → List (ToolCall V)
      → (List (ToolCall V) → Response V)
      → Response V
  output_found id none output next = failed_with "identity_conflict" "工具调用顺序索引与状态表不一致"
  output_found id (some call) output next =
      output_call id call (arguments_of call.arguments) output next

  -- The last loop of `finish`, with the calls that it has pushed.
  unfoldable pub output_calls :
      List String → List (String × PendingCall) → List (ToolCall V) → Response V
  output_calls [] calls output = tool_calls output
  output_calls (id ∷ ids) calls output =
      output_found id (lookup id calls) output (output_calls ids calls)

  abbrev pub finish_checked : Option String → ToolCallAssembler → Response V
  finish_checked (some id) s = failed_with "incomplete_call" (text_append "流结束时工具调用未完成：" id)
  finish_checked none s =
      if is_nil s.calls then text_response s.text else output_calls s.order s.calls []

  abbrev pub finish_unless : Option ToolCallStreamError → ToolCallAssembler → Response V
  finish_unless (some error) s = tool_assembly_failed error
  finish_unless none s =
      if s.output_truncated && not (is_nil s.calls)
      then failed_with "output_truncated" "模型响应达到输出 token 上限，工具参数可能被截断；本轮工具调用已全部拒绝"
      else finish_checked (first_incomplete s.order s.calls) s

  unfoldable pub finish : ToolCallAssembler → Response V
  finish s = finish_unless s.failure s
