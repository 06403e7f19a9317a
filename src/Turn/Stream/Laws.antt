-- ===== src/Turn/Stream/Laws.antt =====
-- What a request that has committed nothing may have shown (src/loop_engine.rs).
use dtcoder_test.Prelude.{
  ℕ, ◌≡◌, refl, ap, ◌∙◌, String, true, false, none, List, [], ◌∷◌, ◌++◌, is_some, arith, All,
  All-append, Bool-cases, inl, inr, ◌⊎◌,
}
use dtcoder_test.Prelude.Text.{is_empty_text}
use Prim.Native.String.{◌++◌ as text_append}
use dtcoder_test.Assembler.{
  ProviderEvent, response_started as response_started_event, protocol_done as protocol_done_event,
  usage as usage_event, text_delta, thinking_delta, output_truncated as output_truncated_event,
  tool_call_started, tool_call_delta, tool_call_completed, tool_call_failed, ToolCallAssembler,
  accept,
}
use dtcoder_test.Turn.Stream.{
  StreamEvent, shown_text, AttemptObservation, observe_text, Stream, new_stream, finish_thinking,
  receive, receive_all, Request, request_model_once,
}

-- An event that shows nothing.
abbrev pub IsSilent : StreamEvent → Type 0
IsSilent e = e ≡ shown_text ""

-- A stream of which nothing has been seen.
pub record IsQuiet (s : Stream) : Type 0 where
  pub silent : All IsSilent s.emitted
  pub no_thinking : s.thinking ≡ ""
  pub inactive : s.thinking_active ≡ false
  pub no_text : s.assembler.text ≡ ""
  pub no_calls : s.assembler.calls ≡ []
  pub no_failure : s.assembler.failure ≡ none
  pub no_tool : s.observation.tool_call_seen ≡ false

empty_text : (s : String) → is_empty_text s ≡ true → s ≡ ""
empty_text String.[] h = refl
empty_text (String.◌∷◌ c s) h = absurd (ground arith)

-- A blank piece of text leaves a quiet stream quiet, and adds one silent event.
blank_text-IsQuiet : (now : ℕ) (s : Stream) → IsQuiet s → IsQuiet (receive (now, text_delta "") s)
unfolding receive accept
blank_text-IsQuiet now s q =
    let fields : (finish_thinking s ≡ s) × (is_some s.assembler.failure ≡ false) =
      (ground (arith, q.inactive), ground (arith, q.no_failure)) in
    let shown : (receive (now, text_delta "") s).emitted ≡ s.emitted ++ (shown_text "" ∷ []) =
      ground (arith, q.inactive) in
    record {
      silent = rw shown (All-append IsSilent s.emitted (shown_text "" ∷ []) q.silent (refl, tt));
      no_thinking = ground (arith, q.inactive, q.no_thinking);
      inactive = ground (arith, q.inactive);
      no_text = ground (
        arith,
        q.inactive,
        q.no_failure,
        q.no_text,
        ap (λ (u : String). text_append u "") (q.no_text),
      );
      no_calls = ground (arith, q.inactive, q.no_failure, q.no_calls);
      no_failure = ground (arith, q.inactive, q.no_failure);
      no_tool = ground (arith, q.inactive, q.no_tool);
    }

-- A text that leaves an observation uncommitted is blank, and so was the observation before it.
uncommitted :
    (now : ℕ) (t : String) (o : AttemptObservation)
    → (observe_text now t o).stream_committed ≡ false
    → (t ≡ "") × (o.stream_committed ≡ false)
uncommitted now t o h = elim (Bool-cases (is_empty_text t)) [
  | inl e ↦ (empty_text t e, ground (arith, rw e at h))
  | inr e ↦ absurd (ground arith)
]

-- An event that changes no text, call or failure, and shows nothing.
unseen-IsQuiet :
    (s : Stream) (o : AttemptObservation) (a : ToolCallAssembler)
    → (a.text ≡ s.assembler.text)
      × (a.calls ≡ s.assembler.calls)
      × (a.failure ≡ s.assembler.failure)
    → o.tool_call_seen ≡ s.observation.tool_call_seen
    → IsQuiet s
    → IsQuiet (record s { observation = o; assembler = a })
unseen-IsQuiet s o a same tool q = record {
  silent = q.silent;
  no_thinking = q.no_thinking;
  inactive = q.inactive;
  no_text = same.0 ∙ q.no_text;
  no_calls = same.1 ∙ q.no_calls;
  no_failure = same.2 ∙ q.no_failure;
  no_tool = tool ∙ q.no_tool;
}

receive-IsQuiet :
    (now : ℕ) (e : ProviderEvent) (s : Stream)
    → (s.observation.stream_committed ≡ false → IsQuiet s)
    → (receive (now, e) s).observation.stream_committed ≡ false
    → IsQuiet (receive (now, e) s)
unfolding receive accept
receive-IsQuiet now (text_delta t) s q h =
    let blank = uncommitted now t s.observation (ground arith) in
    rw (blank.0) (blank_text-IsQuiet now s (q blank.1))
receive-IsQuiet now (thinking_delta t) s q h =
    let blank = uncommitted now t s.observation (ground arith) in rw (blank.0) (q blank.1)
receive-IsQuiet now response_started_event s q h =
    unseen-IsQuiet s _ _ (ground arith, ground arith, ground arith) (ground arith)
      (q (ground arith))
receive-IsQuiet now protocol_done_event s q h =
    unseen-IsQuiet s _ _ (ground arith, ground arith, ground arith) (ground arith)
      (q (ground arith))
receive-IsQuiet now output_truncated_event s q h =
    unseen-IsQuiet s _ _ (ground arith, ground arith, ground arith) (ground arith)
      (q (ground arith))
receive-IsQuiet now (usage_event u) s q h =
    unseen-IsQuiet s _ _ (ground arith, ground arith, ground arith) (ground arith)
      (q (ground arith))
receive-IsQuiet now (tool_call_started id name) s q h = absurd (ground arith)
receive-IsQuiet now (tool_call_delta id f) s q h = absurd (ground arith)
receive-IsQuiet now (tool_call_completed id) s q h = absurd (ground arith)
receive-IsQuiet now (tool_call_failed error) s q h = absurd (ground arith)

receive_all-IsQuiet :
    (es : List (ℕ × ProviderEvent)) (s : Stream)
    → (s.observation.stream_committed ≡ false → IsQuiet s)
    → (receive_all es s).observation.stream_committed ≡ false
    → IsQuiet (receive_all es s)
unfolding receive_all
receive_all-IsQuiet [] s q h = q h
receive_all-IsQuiet ((now, e) ∷ es) s q h =
    receive_all-IsQuiet es (receive (now, e) s) (λ h'. receive-IsQuiet now e s q h') h

new-IsQuiet : IsQuiet new_stream
new-IsQuiet = record {
  silent = tt;
  no_thinking = refl;
  inactive = refl;
  no_text = refl;
  no_calls = refl;
  no_failure = refl;
  no_tool = refl;
}

finished-IsQuiet :
    (s : Stream)
    → (s.observation.stream_committed ≡ false → IsQuiet s)
    → (finish_thinking s).observation.stream_committed ≡ false
    → IsQuiet (finish_thinking s)
finished-IsQuiet s q h =
    let quiet = q (ground arith) in
    let same : finish_thinking s ≡ s = ground (arith, quiet.inactive) in rw same quiet

-- A request that ends without having committed its stream has shown nothing: every piece of text
-- that it gave out is empty, it gave out no thinking, and it assembled neither a text nor a call.
-- So asking again shows nothing twice.
pub request_model_once-IsQuiet :
    {V : Type 0} (parse : String → V ⊎ String) (empty_object : V) (r : Request)
    → (request_model_once parse empty_object r).0.observation.stream_committed ≡ false
    → IsQuiet ((request_model_once parse empty_object r).0)
unfolding request_model_once
request_model_once-IsQuiet parse empty_object r h =
    let s = receive_all r.after (receive_all r.before new_stream) in
    finished-IsQuiet s
      (λ h'.
        receive_all-IsQuiet r.after (receive_all r.before new_stream)
          (receive_all-IsQuiet r.before new_stream (λ e. new-IsQuiet)) h')
      h
