-- ===== src/Turn/Stream.antt =====
-- src/loop_engine.rs: one request to a model (`request_model_once`), event by event. `now` is the
-- time at which an event is read. The select! of the source is the order of the events and the
-- way in which the request ends; the records of the session's trace and the log are not modelled.
pub mod Laws
use dtcoder_test.Prelude.{
  ℕ, ◌≡◌, ◌⊎◌, String, Bool, true, false, not, ◌&&◌, Option, none, some, List, [], ◌∷◌, ◌++◌,
  if◌then◌else◌, is_some, inl, inr,
}
use dtcoder_test.Prelude.Text.{is_empty_text}
use Prim.Native.String.{◌++◌ as text_append}
use dtcoder_test.Provider.Attempt.{ProviderUsage, empty_usage, merge_partial}
use dtcoder_test.Provider.Error.{
  TimeoutPhase, connect, first_event as first_event_phase, stream_idle, overall, ProviderErrorKind,
  timeout, protocol, cancelled as request_cancelled,
}
use dtcoder_test.Assembler.{
  ProviderEvent, response_started as response_started_event, protocol_done as protocol_done_event,
  usage as usage_event, text_delta, thinking_delta, output_truncated as output_truncated_event,
  tool_call_started, tool_call_delta, tool_call_completed, tool_call_failed, ToolCallAssembler,
  default as new_assembler, accept, Response, finish,
}

-- The events of `AgentEvent` that a stream gives.
pub data StreamEvent : Type 0 where
  shown_thinking shown_text : String → StreamEvent
  thinking_finished : StreamEvent

pub record AttemptObservation : Type 0 where
  pub response_started : Bool
  pub first_event : Bool
  pub first_event_at_ms : Option ℕ
  pub protocol_done : Bool
  pub stream_committed : Bool
  pub tool_call_seen : Bool
  pub output_truncated : Bool
  pub usage : Option ProviderUsage

abbrev pub new_observation : AttemptObservation
new_observation = record {
  response_started = false;
  first_event = false;
  first_event_at_ms = none;
  protocol_done = false;
  stream_committed = false;
  tool_call_seen = false;
  output_truncated = false;
  usage = none;
}

abbrev pub mark_first_event : ℕ → AttemptObservation → AttemptObservation
mark_first_event now o =
    if o.first_event then o else record o { first_event = true; first_event_at_ms = some now }

-- `get_or_insert_default`
abbrev pub usage_or_default : Option ProviderUsage → ProviderUsage
usage_or_default none = empty_usage
usage_or_default (some u) = u

abbrev pub observe_text : ℕ → String → AttemptObservation → AttemptObservation
observe_text now text o =
    if is_empty_text text then o else mark_first_event now (record o { stream_committed = true })

abbrev pub observe_tool : ℕ → AttemptObservation → AttemptObservation
observe_tool now o =
    mark_first_event now (record o { tool_call_seen = true; stream_committed = true })

abbrev pub observe : ℕ → ProviderEvent → AttemptObservation → AttemptObservation
observe now response_started_event o = record o { response_started = true }
observe now protocol_done_event o = record o { protocol_done = true }
observe now (usage_event u) o = record o {
  usage = some (merge_partial (usage_or_default o.usage) u);
}
observe now (text_delta text) o = observe_text now text o
observe now (thinking_delta text) o = observe_text now text o
observe now (tool_call_started id name) o = observe_tool now o
observe now (tool_call_delta id fragment) o = observe_tool now o
observe now (tool_call_completed id) o = observe_tool now o
observe now (tool_call_failed error) o = observe_tool now o
observe now output_truncated_event o = mark_first_event now (record o { output_truncated = true })

-- What `request_model_once` keeps while it reads, with the events that it has emitted.
pub record Stream : Type 0 where
  pub observation : AttemptObservation
  pub assembler : ToolCallAssembler
  pub thinking : String
  pub thinking_active : Bool
  pub emitted : List StreamEvent

abbrev pub new_stream : Stream
new_stream = record {
  observation = new_observation;
  assembler = new_assembler;
  thinking = "";
  thinking_active = false;
  emitted = [];
}

abbrev pub finish_thinking : Stream → Stream
finish_thinking s =
    if s.thinking_active
    then record s { emitted = s.emitted ++ (thinking_finished ∷ []); thinking_active = false }
    else s

abbrev pub show_text : Option String → Stream → Stream
show_text none s = s
show_text (some delta) s =
    let s' = finish_thinking s in record s' { emitted = s'.emitted ++ (shown_text delta ∷ []) }

abbrev pub consume_thinking : String → Stream → Stream
consume_thinking delta s = if is_empty_text delta then s else record s {
  thinking = text_append s.thinking delta;
  thinking_active = true;
  emitted = s.emitted ++ (shown_thinking delta ∷ []);
}

abbrev pub consume_accepted : ProviderEvent → Stream → Stream
consume_accepted event s =
    let (assembler, delta) = accept event s.assembler in
    show_text delta (record s { assembler = assembler })

-- `consume_provider_event`
abbrev pub consume_provider_event : ProviderEvent → Stream → Stream
consume_provider_event (thinking_delta delta) s = consume_thinking delta s
consume_provider_event event s = consume_accepted event s

-- The two statements for an event that is read.
unfoldable pub receive : ℕ × ProviderEvent → Stream → Stream
receive (now, event) s =
    consume_provider_event event (record s { observation = observe now event s.observation })

unfoldable pub receive_all : List (ℕ × ProviderEvent) → Stream → Stream
receive_all [] s = s
receive_all (e ∷ es) s = receive_all es (receive e s)

-- How the loop over the events ends. `failed` is an error of the provider, with the delay that it
-- asks for; `broken` is any other error.
pub data Ending : Type 0 where
  completed : Ending
  failed : ProviderErrorKind → Option ℕ → Ending
  broken cancelled phase_elapsed overall_elapsed : Ending

-- The error of an attempt: its kind, and `retry_after_ms` of its diagnostic.
pub record ProviderError : Type 0 where
  pub kind : ProviderErrorKind
  pub retry_after_ms : Option ℕ

abbrev pub error_of : ProviderErrorKind → ProviderError
error_of kind = record { kind = kind; retry_after_ms = none }

-- The phase that a timeout of the phase is reported in.
abbrev pub phase_of : AttemptObservation → TimeoutPhase
phase_of o =
    if not o.response_started
    then connect
    else if not o.first_event
    then first_event_phase
    else stream_idle

-- The error that the loop breaks with, as `request_model` reads it by `downcast`.
abbrev pub ending_error : AttemptObservation → Ending → Option ProviderError
ending_error o completed = none
ending_error o (failed kind retry_after) =
    some (record { kind = kind; retry_after_ms = retry_after })
ending_error o broken = some (error_of protocol)
ending_error o cancelled = some (error_of request_cancelled)
ending_error o phase_elapsed = some (error_of (timeout (phase_of o)))
ending_error o overall_elapsed = some (error_of (timeout overall))

pub record ModelOutput (V : Type 0) : Type 0 where
  pub response : Response V
  pub thinking : Option String

abbrev pub thinking_of : String → Option String
thinking_of thinking = if is_empty_text thinking then none else some thinking

-- A request: the events that are read before it ends, how it ends, and those read after that.
pub record Request : Type 0 where
  pub before : List (ℕ × ProviderEvent)
  pub ending : Ending
  pub after : List (ℕ × ProviderEvent)

module _ {V : Type 0} (parse : String → V ⊎ String) (empty_object : V) where
  abbrev pub close_stream : Option ProviderError → Stream → (ModelOutput V) ⊎ ProviderError
  close_stream (some error) s = inr error
  close_stream none s =
      if s.observation.response_started && not s.observation.protocol_done
      then inr (error_of protocol)
      else inl (record {
        response = finish parse empty_object s.assembler;
        thinking = thinking_of s.thinking;
      })

  -- The observation and the emitted events stay, whatever the answer is.
  unfoldable pub request_model_once : Request → Stream × ((ModelOutput V) ⊎ ProviderError)
  request_model_once r =
      let read = receive_all r.before new_stream in
      let s = receive_all r.after read in
      (finish_thinking s, close_stream (ending_error read.observation r.ending) s)
