-- ===== src/Context/Summary.antt =====
-- src/context.rs: the summary of a text (`summarize_text`, `request_summary`). The provider answers
-- the n-th request of a summary with `ask n`; its error is a text.
use dtcoder_test.Prelude.{
  ℕ, zero, suc, ◌*◌, ◌≤◌, max, ◌⊎◌, inl, inr, String, Bool, true, false, List, [], ◌∷◌, ◌++◌,
  if◌then◌else◌, leb, length, arith, All, All-map, Bool-cases, u64_max, cap_at,
}
use dtcoder_test.Prelude.Text.{codes}
use dtcoder_test.Assembler.{
  Response, text_response, tool_calls, tool_assembly_failed, ToolCallStreamError,
}
use dtcoder_test.Context.Tokens.{estimate_text_tokens, split_for_token_budget, truncate_chars}
use dtcoder_test.Context.Chunks.{IsChunk, split-IsChunk}

pub data SummaryError : Type 0 where
  provider_failed : String → SummaryError
  returned_tool_calls : SummaryError
  returned_invalid_call : ToolCallStreamError → SummaryError

abbrev pub judge_summary : {V : Type 0} → Response V ⊎ String → List ℕ ⊎ SummaryError
judge_summary (inl (text_response summary)) = inl (codes summary)
judge_summary (inl (tool_calls calls)) = inr returned_tool_calls
judge_summary (inl (tool_assembly_failed error)) = inr (returned_invalid_call error)
judge_summary (inr error) = inr (provider_failed error)

-- `summaries.join("\n\n")`
abbrev pub join : List (List ℕ) → List ℕ
join [] = []
join (t ∷ []) = t
join (t ∷ u ∷ ts) = t ++ codes "\n\n" ++ join (u ∷ ts)

-- What `push` and `?` make of an answer.
abbrev pub push_answer :
    List ℕ ⊎ SummaryError → List (List ℕ) ⊎ SummaryError → List (List ℕ) ⊎ SummaryError
push_answer (inr error) rest = inr error
push_answer (inl summary) (inr error) = inr error
push_answer (inl summary) (inl rest) = inl (summary ∷ rest)

abbrev pub is_answer : List ℕ ⊎ SummaryError → Bool
is_answer (inl summary) = true
is_answer (inr error) = false

-- The sources that were asked for stand newest first.
abbrev pub Sources : Type 0
Sources = List (List ℕ)

module _ {V : Type 0} (ask : ℕ → List ℕ → Response V ⊎ String) (chunk_tokens : ℕ) where
  abbrev pub request_summary : List ℕ → Sources → Sources × (List ℕ ⊎ SummaryError)
  request_summary source asked = (source ∷ asked, judge_summary (ask (length asked) source))

  -- The loop over the chunks: an error ends it.
  unfoldable pub summarize_chunks :
      List (List ℕ) → Sources → Sources × (List (List ℕ) ⊎ SummaryError)
  summarize_chunks [] asked = (asked, inl [])
  summarize_chunks (chunk ∷ chunks) asked =
      let (now, answer) = request_summary chunk asked in
      let (later, rest) = summarize_chunks chunks now in
      if is_answer answer then (later, push_answer answer rest) else (now, push_answer answer rest)

  abbrev pub with_merged :
      Sources × (List (List ℕ) ⊎ SummaryError)
      → (List ℕ → Sources → Sources × (List ℕ ⊎ SummaryError))
      → Sources × (List ℕ ⊎ SummaryError)
  with_merged (asked, inr error) next = (asked, inr error)
  with_merged (asked, inl summaries) next = next (join summaries) asked

  -- The first argument is `8 - depth`.
  unfoldable pub summarize_text : ℕ → List ℕ → Sources → Sources × (List ℕ ⊎ SummaryError)
  summarize_text zero text asked =
      (asked, inl (truncate_chars (cap_at u64_max (chunk_tokens * 3)) text))
  summarize_text (suc left) text asked =
      if leb (estimate_text_tokens text) chunk_tokens
      then request_summary text asked
      else with_merged (summarize_chunks (split_for_token_budget chunk_tokens text) asked)
          (summarize_text left)

  abbrev pub FitsChunk : List ℕ → Type 0
  FitsChunk source = estimate_text_tokens source ≤ max chunk_tokens 1

  summarize_chunks-FitsChunk :
      (chunks : List (List ℕ)) (asked : Sources)
      → All FitsChunk chunks
      → All FitsChunk asked
      → All FitsChunk ((summarize_chunks chunks asked).0)
  unfolding summarize_chunks
  summarize_chunks-FitsChunk [] asked c a = a
  summarize_chunks-FitsChunk (chunk ∷ chunks) asked c a =
      elim (Bool-cases (is_answer (judge_summary (ask (length asked) chunk)))) [
        | inl e ↦ rw e (summarize_chunks-FitsChunk chunks (chunk ∷ asked) c.1 (c.0, a))
        | inr e ↦ rw e (c.0, a)
      ]

  with_merged-FitsChunk :
      (r : Sources × (List (List ℕ) ⊎ SummaryError))
      (next : List ℕ → Sources → Sources × (List ℕ ⊎ SummaryError))
      → All FitsChunk r.0
      → ((text : List ℕ) (asked : Sources)
          → All FitsChunk asked
          → All FitsChunk ((next text asked).0))
      → All FitsChunk ((with_merged r next).0)
  with_merged-FitsChunk (asked, inr error) next a h = a
  with_merged-FitsChunk (asked, inl summaries) next a h = h (join summaries) asked a

  -- A summary asks the provider only for texts that fit a chunk, however deep it goes.
  pub summarize_text-FitsChunk :
      (left : ℕ) (text : List ℕ) (asked : Sources)
      → All FitsChunk asked
      → All FitsChunk ((summarize_text left text asked).0)
  unfolding summarize_text
  summarize_text-FitsChunk zero text asked a = a
  summarize_text-FitsChunk (suc left) text asked a =
      elim (Bool-cases (leb (estimate_text_tokens text) chunk_tokens)) [
        | inl e ↦ rw e (ground arith, a)
        | inr e ↦ rw e (
            with_merged-FitsChunk
              (summarize_chunks (split_for_token_budget chunk_tokens text) asked)
              (summarize_text left)
              (summarize_chunks-FitsChunk (split_for_token_budget chunk_tokens text) asked
                (All-map (IsChunk chunk_tokens) FitsChunk (λ t c. c.2) _
                  ((split-IsChunk chunk_tokens text).1))
                a)
              (summarize_text-FitsChunk left))
      ]
