-- ===== src/Examples/Context.antt =====
-- The theorems on the context at a short conversation.
use dtcoder_test.Prelude.{ℕ, ◌<◌, ◌≡◌, ◌⊎◌, inl, String, none, List, [], ◌∷◌, All}
use dtcoder_test.Prelude.Text.{codes}
use dtcoder_test.Assembler.{Response, text_response, ToolCall}
use dtcoder_test.Messages.{
  Message, text, user, tool_result, assistant_with_thinking, assistant_tool_calls_with_thinking,
}
use dtcoder_test.Context.Tokens.{split_for_token_budget, concat}
use dtcoder_test.Context.Chunks.{IsChunk, split-IsChunk}
use dtcoder_test.Context.Summary.{FitsChunk, summarize_text, summarize_text-FitsChunk}
use dtcoder_test.Context.Compress.{ContextConfig, Outside, estimate_messages, compact_for_overflow}
use dtcoder_test.Context.History.{IsCut, OnCompacted, compact_for_overflow-IsCut}

abbrev config : ContextConfig
config = record {
  token_budget = 300;
  recent_messages = 1;
  mild_compression_percent = 60;
  strong_compression_percent = 85;
  summary_chunk_tokens = 2;
}

abbrev ask : ℕ → List ℕ → Response ℕ ⊎ String
ask n source = inl (text_response "s")

abbrev outside : Outside ℕ
outside = record {
  messages_json = λ messages. codes "json of the messages";
  calls_json = λ calls. [];
  summary_text = λ summary. "summary";
  environment = λ moment history. "main";
  ask = ask;
}

abbrev call : ToolCall ℕ
call = record { id = "c1"; name = "read"; arguments = 0 }

abbrev conversation : List (Message ℕ)
conversation =
    text user "a question that is so long that a summary of it is shorter than the question itself"
    ∷ assistant_tool_calls_with_thinking (call ∷ []) none
    ∷ tool_result call "1 2 3"
    ∷ assistant_with_thinking "done" none
    ∷ []

split-IsChunk_example :
    (concat (split_for_token_budget 2 (codes "中文 and ASCII text")) ≡ codes "中文 and ASCII text")
    × All (IsChunk 2) (split_for_token_budget 2 (codes "中文 and ASCII text"))
split-IsChunk_example = split-IsChunk 2 (codes "中文 and ASCII text")

summarize_text-FitsChunk_example :
    All (FitsChunk ask 2) ((summarize_text ask 2 8 (codes "a text of more than one chunk") []).0)
summarize_text-FitsChunk_example =
    summarize_text-FitsChunk ask 2 8 (codes "a text of more than one chunk") [] tt

compact_for_overflow-IsCut_example :
    OnCompacted
      (λ new.
        (estimate_messages outside new < estimate_messages outside conversation)
        × IsCut outside config [] conversation new)
      ((compact_for_overflow outside config conversation []).1)
compact_for_overflow-IsCut_example = compact_for_overflow-IsCut outside config conversation []
