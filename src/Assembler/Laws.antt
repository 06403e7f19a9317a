-- ===== src/Assembler/Laws.antt =====
-- What the assembler of src/tool_calls.rs makes of a stream of events.
use dtcoder_test.Prelude.{
  ◌≡◌, refl, ap, sym, ◌∙◌, ◌⊎◌, inl, inr, String, false, not, ◌&&◌, Option, none, some, List, [],
  ◌∷◌, ◌++◌, map, if◌then◌else◌, is_some, arith, Option-cases,
}
use dtcoder_test.Prelude.Dict.{lookup}
use mathlib.Core.List.{append_assoc, append-nil, map-append}
use dtcoder_test.Assembler.{
  ToolCallStreamError, ToolArgumentsFragment, append, authoritative_snapshot, ProviderEvent,
  response_started, protocol_done, usage, output_truncated, text_delta, thinking_delta,
  tool_call_started, tool_call_delta, tool_call_completed, tool_call_failed, PendingCall,
  ToolCallAssembler, default, accept_delta, accept_completed, accept_event, accept, accept_all,
  ToolCall, Response, tool_calls, tool_assembly_failed, failed_with, first_incomplete, is_nil,
  arguments_of, output_call, output_calls, finish_checked, finish,
}

-- The identities that an event, and a stream, starts.
abbrev pub started_by : ProviderEvent → List String
started_by (tool_call_started id name) = id ∷ []
started_by _ = []

abbrev pub starts : List ProviderEvent → List String
starts [] = []
starts (e ∷ es) = started_by e ++ starts es

accept-failed :
    (e : ProviderEvent) (s : ToolCallAssembler) (error : ToolCallStreamError)
    → s.failure ≡ some error
    → (accept e s).0 ≡ s
unfolding accept
accept-failed e s error h = rw h refl

accept_all-failed :
    (es : List ProviderEvent) (s : ToolCallAssembler) (error : ToolCallStreamError)
    → s.failure ≡ some error
    → accept_all es s ≡ s
unfolding accept_all
accept_all-failed [] s error h = refl
accept_all-failed (e ∷ es) s error h =
    rw (accept-failed e s error h) (accept_all-failed es s error h)

-- The first failure of a stream is what it ends with, whatever events follow it.
pub finish-first_failure :
    {V : Type 0} (parse : String → V ⊎ String) (empty_object : V) (es later : List ProviderEvent)
    (error : ToolCallStreamError)
    → (accept_all es default).failure ≡ some error
    → finish parse empty_object (accept_all later (accept_all es default))
      ≡ tool_assembly_failed error
unfolding finish
finish-first_failure parse empty_object es later error h =
    rw (accept_all-failed later (accept_all es default) error h) (rw h refl)

delta-order :
    (id : String) (fragment : ToolArgumentsFragment) (o : Option PendingCall)
    (s : ToolCallAssembler)
    → (accept_delta id fragment o s).order ≡ s.order
delta-order id fragment none s = refl
delta-order id (append text) (some call) s = ground arith
delta-order id (authoritative_snapshot text) (some call) s = ground arith

completed-order :
    (id : String) (o : Option PendingCall) (s : ToolCallAssembler)
    → (accept_completed id o s).order ≡ s.order
completed-order id none s = refl
completed-order id (some call) s = ground arith

started-order :
    (id name : String) (s : ToolCallAssembler)
    → s.failure ≡ none
    → (accept_event (tool_call_started id name) s).failure ≡ none
    → (accept_event (tool_call_started id name) s).order ≡ s.order ++ (id ∷ [])
started-order id name s ok h = ground (arith, rw ok at h)

event-order :
    (e : ProviderEvent) (s : ToolCallAssembler)
    → s.failure ≡ none
    → (accept_event e s).failure ≡ none
    → (accept_event e s).order ≡ s.order ++ started_by e
event-order response_started s ok h = sym (append-nil s.order)
event-order protocol_done s ok h = sym (append-nil s.order)
event-order (usage u) s ok h = sym (append-nil s.order)
event-order output_truncated s ok h = sym (append-nil s.order)
event-order (text_delta delta) s ok h = sym (append-nil s.order)
event-order (thinking_delta delta) s ok h = sym (append-nil s.order)
event-order (tool_call_failed error) s ok h = sym (append-nil s.order)
event-order (tool_call_started id name) s ok h = started-order id name s ok h
event-order (tool_call_delta id fragment) s ok h =
    delta-order id fragment (lookup id s.calls) s ∙ sym (append-nil s.order)
event-order (tool_call_completed id) s ok h =
    completed-order id (lookup id s.calls) s ∙ sym (append-nil s.order)

accept-order :
    (e : ProviderEvent) (s : ToolCallAssembler)
    → (accept e s).0.failure ≡ none
    → (s.failure ≡ none) × ((accept e s).0.order ≡ s.order ++ started_by e)
unfolding accept
accept-order e s h = elim (Option-cases s.failure) [
  | inl ok ↦
      let open_yet : is_some s.failure ≡ false = rw ok refl in
      (ok, rw open_yet (event-order e s ok (rw open_yet at h)))
  | inr (error, bad) ↦ absurd (ground (arith, rw bad at h))
]

accept_all-order :
    (es : List ProviderEvent) (s : ToolCallAssembler)
    → (accept_all es s).failure ≡ none
    → (s.failure ≡ none) × ((accept_all es s).order ≡ s.order ++ starts es)
unfolding accept_all
accept_all-order [] s h = (h, sym (append-nil s.order))
accept_all-order (e ∷ es) s h =
    let rest = accept_all-order es (accept e s).0 h in
    let first = accept-order e s rest.0 in
    (
      first.0,
      rest.1 ∙ ap (λ o. o ++ starts es) first.1 ∙ append_assoc s.order (started_by e) (starts es),
    )

module _ {V : Type 0} (parse : String → V ⊎ String) (empty_object : V) where
  abbrev ids : List (ToolCall V) → List String
  ids = map (λ c. c.id)

  output_call-ids :
      (id : String) (order : List String) (call : PendingCall) (v : V ⊎ String)
      (acc output : List (ToolCall V)) (next : List (ToolCall V) → Response V)
      → ((acc' : List (ToolCall V))
          → next acc' ≡ tool_calls output
          → ids output ≡ ids acc' ++ order)
      → output_call parse empty_object id call v acc next ≡ tool_calls output
      → ids output ≡ ids acc ++ (id ∷ order)
  output_call-ids id order call (inl value) acc output next rest h =
      let pushed : ToolCall V = record { id = id; name = call.name; arguments = value } in
      rest (acc ++ (pushed ∷ [])) h
      ∙ ap (λ l. l ++ order) (map-append (λ (c : ToolCall V). c.id) acc (pushed ∷ []))
      ∙ append_assoc (ids acc) (id ∷ []) order
  output_call-ids id order call (inr error) acc output next rest h = absurd (ground arith)

  output_calls-ids :
      (order : List String) (calls : List (String × PendingCall)) (acc output : List (ToolCall V))
      → output_calls parse empty_object order calls acc ≡ tool_calls output
      → ids output ≡ ids acc ++ order
  unfolding output_calls
  output_calls-ids [] calls acc output h = ground (arith, append-nil (ids acc))
  output_calls-ids (id ∷ order) calls acc output h = elim (Option-cases (lookup id calls)) [
    | inl missing ↦ absurd (ground (arith, rw (output_calls, missing) at h))
    | inr (call, found) ↦
        output_call-ids id order call (arguments_of parse empty_object call.arguments) acc output
          (output_calls parse empty_object order calls)
          (λ acc' h'. output_calls-ids order calls acc' output h') (rw (output_calls, found) at h)
  ]

  checked :
      (s : ToolCallAssembler) (output : List (ToolCall V))
      → (if s.output_truncated && not (is_nil s.calls)
          then failed_with "output_truncated" "模型响应达到输出 token 上限，工具参数可能被截断；本轮工具调用已全部拒绝"
          else finish_checked parse empty_object none s)
        ≡ tool_calls output
      → ids output ≡ s.order
  checked s output h = ground (arith, output_calls-ids s.order s.calls [] output)

  finish-tool_calls :
      (s : ToolCallAssembler) (output : List (ToolCall V))
      → finish parse empty_object s ≡ tool_calls output
      → (s.failure ≡ none) × (first_incomplete s.order s.calls ≡ none) × (ids output ≡ s.order)
  unfolding finish
  finish-tool_calls s output h = elim (Option-cases s.failure) [
    | inr (error, bad) ↦ absurd (ground (arith, rw bad at h))
    | inl ok ↦ elim (Option-cases (first_incomplete s.order s.calls)) [
      | inr (id, bad) ↦ absurd (ground (arith, rw (ok, bad) at h))
      | inl complete ↦ (ok, complete, checked s output (rw (ok, complete) at h))
    ]
  ]

  -- A stream that ends with tool calls had no failure; it gives one call for each one started, in
  -- the order in which they were started, and each of them was completed.
  pub stream-tool_calls :
      (es : List ProviderEvent) (output : List (ToolCall V))
      → finish parse empty_object (accept_all es default) ≡ tool_calls output
      → (ids output ≡ starts es)
        × (first_incomplete (starts es) (accept_all es default).calls ≡ none)
        × ((accept_all es default).failure ≡ none)
  stream-tool_calls es output h =
      let end = finish-tool_calls (accept_all es default) output h in
      let order : (accept_all es default).order ≡ starts es =
        (accept_all-order es default end.0).1 in
      (end.2 ∙ order, rw order at (end.1), end.0)
