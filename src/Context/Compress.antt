-- ===== src/Context/Compress.antt =====
-- src/context.rs: the messages of a request (`prepare`), and the compression of a history. What
-- stands outside is an `Outside`: the JSON of messages and of tool calls, the dynamic environment
-- (the branch, the plan and the skills; 0 and 1 are the two times at which `prepare` asks for it),
-- and the provider that is asked for summaries.
use dtcoder_test.Prelude.{
  ℕ, zero, suc, ◌+◌, ◌-◌, ◌*◌, ◌/◌, max, ◌⊎◌, inl, inr, String, ◌||◌, Option, none, some, List, [],
  ◌∷◌, ◌++◌, if◌then◌else◌, ltb, leb, length, take, drop, u64_max, cap_at, ◌==◌,
}
use dtcoder_test.Prelude.Text.{codes}
use Prim.Native.String.{◌++◌ as text_append}
use dtcoder_test.Assembler.{Response, ToolCall}
use dtcoder_test.Messages.{system, Message, text}
use dtcoder_test.Messages.Pairing.{is_tool_at}
use dtcoder_test.Context.Tokens.{estimate_text_tokens}
use dtcoder_test.Context.Summary.{SummaryError, summarize_text, Sources}

pub record ContextConfig : Type 0 where
  pub token_budget : ℕ
  pub recent_messages : ℕ
  pub mild_compression_percent : ℕ
  pub strong_compression_percent : ℕ
  pub summary_chunk_tokens : ℕ

pub data CompressionMode : Type 0 where
  mild strong : CompressionMode

pub record Outside (V : Type 0) : Type 0 where
  pub messages_json : List (Message V) → List ℕ
  pub calls_json : List (ToolCall V) → List ℕ
  -- the text of a summary that a provider gave, from its code points
  pub summary_text : List ℕ → String
  pub environment : ℕ → List (Message V) → String
  pub ask : ℕ → List ℕ → Response V ⊎ String

pub record ContextManager : Type 0 where
  pub system_prompt : String
  pub project_rules : Option String
  pub config : ContextConfig

abbrev pub content_tokens : Option String → ℕ
content_tokens none = 0
content_tokens (some content) = estimate_text_tokens (codes content)

-- The `split` of a mode; `compressible.div_ceil(3).max(1)` for a mild compression.
abbrev pub first_split : CompressionMode → ℕ → ℕ
first_split mild compressible = max ((compressible + 2) / 3) 1
first_split strong compressible = compressible

-- The `while`: the cut stands in front of no tool result.
unfoldable pub step_back : {V : Type 0} → List (Message V) → ℕ → ℕ
step_back history zero = 0
step_back history (suc split) =
    let earlier = step_back history split in
    if is_tool_at (suc split) history then earlier else suc split

abbrev pub rules_message : {V : Type 0} → Option String → List (Message V)
rules_message none = []
rules_message (some rules) = text system (text_append "项目规则（AGENTS.md）：\n" rules) ∷ []

-- `percent` of the budget, as `saturating_mul(percent) / 100`.
abbrev pub threshold : ContextConfig → ℕ → ℕ
threshold config percent = cap_at u64_max (config.token_budget * percent) / 100

module _ {V : Type 0} (o : Outside V) where
  unfoldable pub estimate_message : Message V → ℕ
  estimate_message m =
      content_tokens m.content
      + estimate_text_tokens (o.calls_json m.calls)
      + cap_at u64_max (length m.image_urls * 384)
      + 6

  abbrev pub estimate_messages : List (Message V) → ℕ
  estimate_messages [] = 0
  estimate_messages (m ∷ ms) = estimate_message m + estimate_messages ms

  abbrev pub summary_message : List ℕ → Message V
  summary_message summary = text system (text_append "此前对话摘要：\n" (o.summary_text summary))

  abbrev pub replace_old :
      ℕ
      → List (Message V)
      → Sources × (List ℕ ⊎ SummaryError)
      → Sources × (List (Message V) ⊎ SummaryError)
  replace_old split history (asked, inr error) = (asked, inr error)
  replace_old split history (asked, inl summary) =
      (asked, inl (summary_message summary ∷ drop split history))

  -- An error leaves the history as it is.
  unfoldable pub compress_history :
      ContextConfig
      → CompressionMode
      → List (Message V)
      → Sources
      → Sources × (List (Message V) ⊎ SummaryError)
  compress_history config mode history asked =
      let split = step_back history (first_split mode (length history - config.recent_messages)) in
      if leb (length history) config.recent_messages || split == 0
      then (asked, inl history)
      else replace_old split history (
          summarize_text o.ask config.summary_chunk_tokens 8 (o.messages_json (take split history))
            asked)

  abbrev pub if_smaller :
      List (Message V) → List (Message V) ⊎ SummaryError → Option (List (Message V)) ⊎ SummaryError
  if_smaller messages (inr error) = inr error
  if_smaller messages (inl compacted) = inl (
      if ltb (estimate_messages compacted) (estimate_messages messages)
      then some compacted
      else none)

  abbrev pub compact_for_overflow :
      ContextConfig
      → List (Message V)
      → Sources
      → Sources × (Option (List (Message V)) ⊎ SummaryError)
  compact_for_overflow config messages asked =
      let (later, compacted) = compress_history config strong messages asked in
      if leb (length messages) 2 then (asked, inl none) else (later, if_smaller messages compacted)

  abbrev pub compose : ContextManager → ℕ → List (Message V) → List (Message V)
  compose c moment history =
      text system c.system_prompt
      ∷ (rules_message c.project_rules
          ++ (history ++ (text system (o.environment moment history) ∷ [])))

  abbrev pub compress_for :
      ContextConfig → ℕ → List (Message V) → Sources → Sources × (List (Message V) ⊎ SummaryError)
  compress_for config total history asked =
      if ltb (threshold config config.strong_compression_percent) total
      then compress_history config strong history asked
      else if ltb (threshold config config.mild_compression_percent) total
      then compress_history config mild history asked
      else (asked, inl history)

  -- The history and the request, or the error with which the turn ends.
  abbrev pub compose_new :
      ContextManager
      → Sources × (List (Message V) ⊎ SummaryError)
      → Sources × ((List (Message V) × List (Message V)) ⊎ SummaryError)
  compose_new c (asked, inr error) = (asked, inr error)
  compose_new c (asked, inl history) = (asked, inl (history, compose c 1 history))

  unfoldable pub prepare :
      ContextManager
      → ℕ
      → List (Message V)
      → Sources
      → Sources × ((List (Message V) × List (Message V)) ⊎ SummaryError)
  prepare c spec_tokens history asked =
      let total = estimate_messages (compose c 0 history) + spec_tokens in
      compose_new c (compress_for c.config total history asked)
