-- ===== src/Context/History.antt =====
-- What a compression keeps of a history (src/context.rs).
use dtcoder_test.Prelude.{
  ℕ, zero, suc, ◌+◌, ◌-◌, ◌≤◌, ◌<◌, ◌≡◌, refl, ◌⊎◌, inl, inr, String, false, ◌||◌, Option, none,
  some, List, [], ◌∷◌, ltb, leb, length, take, drop, arith, Bool-cases, ◌==◌, ltb→lt, ap,
}
use dtcoder_test.Messages.{Message}
use dtcoder_test.Messages.Pairing.{is_tool_at, IsPaired, Awaits-append, Awaits-drop}
use dtcoder_test.Context.Summary.{SummaryError, summarize_text, Sources}
use dtcoder_test.Context.Compress.{
  ContextConfig, CompressionMode, mild, strong, Outside, ContextManager, first_split, step_back,
  rules_message, estimate_messages, summary_message, replace_old, compress_history, if_smaller,
  compact_for_overflow, compose, threshold, compress_for, compose_new, prepare,
}

module _ {V : Type 0} where
  step_back-le : (history : List (Message V)) (split : ℕ) → step_back history split ≤ split
  unfolding step_back
  step_back-le history zero = omega arith
  step_back-le history (suc split) = let ih = step_back-le history split in ground arith

  step_back-stops :
      (history : List (Message V)) (split : ℕ)
      → (step_back history split ≡ 0) ⊎ (is_tool_at (step_back history split) history ≡ false)
  unfolding step_back
  step_back-stops history zero = inl refl
  step_back-stops history (suc split) = elim (Bool-cases (is_tool_at (suc split) history)) [
    | inl e ↦ rw e (step_back-stops history split)
    | inr e ↦ rw e (inr e)
  ]

-- The older messages of a history became a summary: of exactly those messages, cut in front of no
-- result of a tool, with the recent messages behind it.
pub record IsCut {V : Type 0} (o : Outside V) (config : ContextConfig) (asked : Sources)
    (history new : List (Message V)) : Type 0 where
  pub split : ℕ
  pub positive : 0 < split
  pub recent_kept : split + config.recent_messages ≤ length history
  pub no_result_first : is_tool_at split history ≡ false
  pub summary : List ℕ
  pub summarized :
      (summarize_text o.ask config.summary_chunk_tokens 8
        (o.messages_json (take split history))
        asked).1
      ≡ inl summary
  pub replaced : new ≡ summary_message o summary ∷ drop split history

-- A predicate of the history that a step gives, if it gives one.
abbrev pub OnHistory :
    {V : Type 0} → (List (Message V) → Type 0) → List (Message V) ⊎ SummaryError → Type 0
OnHistory P (inl history) = P history
OnHistory P (inr error) = Unit

-- The history and the request of a successful preparation.
abbrev pub OnPrepared :
    {V : Type 0}
    → (List (Message V) → List (Message V) → Type 0)
    → (List (Message V) × List (Message V)) ⊎ SummaryError
    → Type 0
OnPrepared P (inl (history, request)) = P history request
OnPrepared P (inr error) = Unit

-- What a compaction for an overflow may give.
abbrev pub OnCompacted :
    {V : Type 0} → (List (Message V) → Type 0) → Option (List (Message V)) ⊎ SummaryError → Type 0
OnCompacted P (inl (some messages)) = P messages
OnCompacted P (inl none) = Unit
OnCompacted P (inr error) = Unit

module _ {V : Type 0} (o : Outside V) where
  -- What a compression may make of a history.
  abbrev pub Keeps :
      ContextConfig → Sources → List (Message V) → List (Message V) ⊎ SummaryError → Type 0
  Keeps config asked history (inl new) = (new ≡ history) ⊎ IsCut o config asked history new
  Keeps config asked history (inr error) = Unit

  replace_old-Keeps :
      (config : ContextConfig) (asked : Sources) (split : ℕ) (history : List (Message V))
      (r : Sources × (List ℕ ⊎ SummaryError))
      → summarize_text o.ask config.summary_chunk_tokens 8
          (o.messages_json (take split history))
          asked
        ≡ r
      → 0 < split
      → split + config.recent_messages ≤ length history
      → is_tool_at split history ≡ false
      → Keeps config asked history ((replace_old o split history r).1)
  replace_old-Keeps config asked split history (later, inr error) made p l t = tt
  replace_old-Keeps config asked split history (later, inl summary) made p l t = inr (record {
    split = split;
    positive = p;
    recent_kept = l;
    no_result_first = t;
    summary = summary;
    summarized = ap (λ r. r.1) made;
    replaced = refl;
  })

  first_split-le : (mode : CompressionMode) (n : ℕ) → 0 < n → first_split mode n ≤ n
  first_split-le mild n h = ground arith
  first_split-le strong n h = omega arith

  -- A compression that succeeds leaves the history as it is, or puts one summary in the place of one
  -- or more of its oldest messages: the most recent `recent_messages` messages all stay, and the
  -- first message behind the summary is not the result of a tool.
  pub compress_history-Keeps :
      (config : ContextConfig) (mode : CompressionMode) (history : List (Message V))
      (asked : Sources)
      → Keeps config asked history ((compress_history o config mode history asked).1)
  unfolding compress_history
  compress_history-Keeps config mode history asked =
      let compressible = length history - config.recent_messages in
      let split = step_back history (first_split mode compressible) in
      elim (Bool-cases (leb (length history) config.recent_messages || split == 0)) [
        | inl e ↦ rw e (inl refl)
        | inr e ↦
            let long : config.recent_messages < length history = ground arith in
            let positive : 0 < split = ground arith in
            let bound = step_back-le history (first_split mode compressible) in
            let bound' = first_split-le mode compressible (omega arith) in
            let stops : is_tool_at split history ≡ false =
              elim (step_back-stops history (first_split mode compressible)) [
                | inl z ↦ absurd (omega arith)
                | inr t ↦ t
              ] in
            rw e (
              replace_old-Keeps config asked split history
                (summarize_text o.ask config.summary_chunk_tokens 8
                  (o.messages_json (take split history)) asked)
                refl positive (omega arith) stops)
      ]

  Keeps-IsPaired :
      (config : ContextConfig) (asked : Sources) (history : List (Message V))
      (r : List (Message V) ⊎ SummaryError)
      → IsPaired history
      → Keeps config asked history r
      → OnHistory IsPaired r
  Keeps-IsPaired config asked history (inr error) p k = tt
  Keeps-IsPaired config asked history (inl new) p (inl e) = rw e p
  Keeps-IsPaired config asked history (inl new) p (inr c) =
      rw c.replaced (refl, Awaits-drop c.split [] history c.no_result_first p)

  compress_for-IsPaired :
      (config : ContextConfig) (total : ℕ) (history : List (Message V)) (asked : Sources)
      → IsPaired history
      → OnHistory IsPaired ((compress_for o config total history asked).1)
  compress_for-IsPaired config total history asked p =
      let keeps = λ (mode : CompressionMode).
        Keeps-IsPaired config asked history ((compress_history o config mode history asked).1) p
          (compress_history-Keeps config mode history asked) in
      elim (Bool-cases (ltb (threshold config config.strong_compression_percent) total)) [
        | inl e ↦ rw e (keeps strong)
        | inr e ↦ elim (Bool-cases (ltb (threshold config config.mild_compression_percent) total)) [
          | inl e' ↦ rw (e, e') (keeps mild)
          | inr e' ↦ rw (e, e') p
        ]
      ]

  rules_message-IsPaired : (rules : Option String) → IsPaired {V = V} (rules_message rules)
  rules_message-IsPaired none = refl
  rules_message-IsPaired (some rules) = (refl, refl)

  compose-IsPaired :
      (c : ContextManager) (moment : ℕ) (history : List (Message V))
      → IsPaired history
      → IsPaired (compose o c moment history)
  compose-IsPaired c moment history p = (
    refl,
    Awaits-append [] [] [] (rules_message c.project_rules) _
        (rules_message-IsPaired c.project_rules) (Awaits-append [] [] [] history _ p (refl, refl)),
  )

  compose_new-IsPaired :
      (c : ContextManager) (r : Sources × (List (Message V) ⊎ SummaryError))
      → OnHistory IsPaired r.1
      → OnPrepared (λ history request. IsPaired history × IsPaired request) ((compose_new o c r).1)
  compose_new-IsPaired c (asked, inr error) h = tt
  compose_new-IsPaired c (asked, inl history) h = (h, compose-IsPaired c 1 history h)

  -- Preparing a request from a history in which every tool call is followed by its results gives a
  -- history and a request of which the same holds: no compression cuts a call from its results.
  pub prepare-IsPaired :
      (c : ContextManager) (spec_tokens : ℕ) (history : List (Message V)) (asked : Sources)
      → IsPaired history
      → OnPrepared
          (λ new request. IsPaired new × IsPaired request)
          ((prepare o c spec_tokens history asked).1)
  unfolding prepare
  prepare-IsPaired c spec_tokens history asked p =
      compose_new-IsPaired c
        (compress_for o c.config (estimate_messages o (compose o c 0 history) + spec_tokens) history
          asked)
        (compress_for-IsPaired c.config (estimate_messages o (compose o c 0 history) + spec_tokens)
          history asked p)

  if_smaller-OnCompacted :
      (P : List (Message V) → Type 0) (messages : List (Message V))
      (r : List (Message V) ⊎ SummaryError)
      → OnHistory P r
      → OnCompacted
          (λ new. (estimate_messages o new < estimate_messages o messages) × P new)
          (if_smaller o messages r)
  if_smaller-OnCompacted P messages (inr error) h = tt
  if_smaller-OnCompacted P messages (inl new) h =
      elim (Bool-cases (ltb (estimate_messages o new) (estimate_messages o messages))) [
        | inl e ↦ rw e (ltb→lt _ _ e, h)
        | inr e ↦ rw e tt
      ]

  smaller-IsCut :
      (config : ContextConfig) (asked : Sources) (messages new : List (Message V))
      → estimate_messages o new < estimate_messages o messages
      → (new ≡ messages) ⊎ IsCut o config asked messages new
      → IsCut o config asked messages new
  smaller-IsCut config asked messages new l (inl e) =
      absurd (omega (arith, ap (estimate_messages o) e))
  smaller-IsCut config asked messages new l (inr c) = c

  Keeps-OnHistory :
      (config : ContextConfig) (asked : Sources) (history : List (Message V))
      (r : List (Message V) ⊎ SummaryError)
      → Keeps config asked history r
      → OnHistory (λ new. (new ≡ history) ⊎ IsCut o config asked history new) r
  Keeps-OnHistory config asked history (inr error) k = tt
  Keeps-OnHistory config asked history (inl new) k = k

  OnCompacted-map :
      (P Q : List (Message V) → Type 0) (r : Option (List (Message V)) ⊎ SummaryError)
      → ((new : List (Message V)) → P new → Q new)
      → OnCompacted P r
      → OnCompacted Q r
  OnCompacted-map P Q (inl (some messages)) f h = f messages h
  OnCompacted-map P Q (inl none) f h = tt
  OnCompacted-map P Q (inr error) f h = tt

  -- The compaction after an overflow gives messages only if their estimate is smaller. They then are
  -- one message with the summary that the provider made of the oldest messages, one or more, and
  -- behind it all the other messages as they were: the most recent `recent_messages` are among these,
  -- and the first of them is not the result of a tool.
  pub compact_for_overflow-IsCut :
      (config : ContextConfig) (messages : List (Message V)) (asked : Sources)
      → OnCompacted
          (λ new.
            (estimate_messages o new < estimate_messages o messages)
            × IsCut o config asked messages new)
          ((compact_for_overflow o config messages asked).1)
  compact_for_overflow-IsCut config messages asked =
      let result = (compress_history o config strong messages asked).1 in
      elim (Bool-cases (leb (length messages) 2)) [
        | inl e ↦ rw e tt
        | inr e ↦ rw e (
            OnCompacted-map _ _ (if_smaller o messages result)
              (λ new h. (h.0, smaller-IsCut config asked messages new h.0 h.1))
              (if_smaller-OnCompacted (λ new. (new ≡ messages) ⊎ IsCut o config asked messages new)
                messages result
                (Keeps-OnHistory config asked messages result
                  (compress_history-Keeps config strong messages asked))))
      ]
