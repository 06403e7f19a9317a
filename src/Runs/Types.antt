-- ===== src/Runs/Types.antt =====
-- The tables of src/storage/mod.rs (schema version 5) as lists of rows in the order of insertion,
-- which is the order of their integer keys.
--
-- A run's id is the text "run-{rowid}"; here it is the rowid, and a text of another form names no
-- row, as an unused number does. A status column holds the text of a `RunStatus`
-- (`as_str`, `parse`); here it holds the status. JSON columns hold what was serialised.
use dtcoder_test.Prelude.{
  ℕ, ◌≡◌, refl, String, Bool, true, false, Option, List, [], str_eq, if◌then◌else◌,
}
use dtcoder_test.Prelude.Int.{ℤ}
use dtcoder_test.Result.{protocol, Result, ok, err}
use dtcoder_test.Provider.Error.{ProviderErrorKind}

pub data RunStatus : Type 0 where
  queued running waiting_interaction : RunStatus
  completed failed cancelled unknown_after_restart : RunStatus

unfoldable pub as_str : RunStatus → String
as_str queued = "queued"
as_str running = "running"
as_str waiting_interaction = "waiting_interaction"
as_str completed = "completed"
as_str failed = "failed"
as_str cancelled = "cancelled"
as_str unknown_after_restart = "unknown_after_restart"

unfoldable pub parse : String → Result RunStatus
parse value =
    if str_eq value "queued"
    then ok queued
    else if str_eq value "running"
    then ok running
    else if str_eq value "waiting_interaction"
    then ok waiting_interaction
    else if str_eq value "completed"
    then ok completed
    else if str_eq value "failed"
    then ok failed
    else if str_eq value "cancelled"
    then ok cancelled
    else if str_eq value "unknown_after_restart"
    then ok unknown_after_restart
    else err (protocol "未知 run 状态")

abbrev pub terminal : RunStatus → Bool
terminal queued = false
terminal running = false
terminal waiting_interaction = false
terminal _ = true

-- `status IN ('running','waiting_interaction')`
abbrev pub is_active : RunStatus → Bool
is_active running = true
is_active waiting_interaction = true
is_active _ = false

-- `status IN ('queued','running','waiting_interaction')`
abbrev pub is_live : RunStatus → Bool
is_live queued = true
is_live running = true
is_live waiting_interaction = true
is_live _ = false

abbrev pub status_eq : RunStatus → RunStatus → Bool
status_eq queued queued = true
status_eq running running = true
status_eq waiting_interaction waiting_interaction = true
status_eq completed completed = true
status_eq failed failed = true
status_eq cancelled cancelled = true
status_eq unknown_after_restart unknown_after_restart = true
status_eq _ _ = false

pub record Run : Type 0 where
  pub rowid : ℕ
  pub session : String
  pub request_json : String
  pub status : RunStatus
  pub input : String
  pub last_seq : ℕ
  pub content : Option String
  pub error_code : Option ℤ
  pub error_message : Option String
  pub created_at_ms : ℕ
  pub updated_at_ms : ℕ

pub record Turn : Type 0 where
  pub run_id : ℕ
  pub status : RunStatus

-- The JSON objects that the store writes into `events.data_json`; `other` is any other value.
pub data Payload : Type 0 where
  user_message : String → Payload
  run_started : ℤ → Payload
  status_only : RunStatus → Payload
  terminal_data : RunStatus → Option ℤ → Option String → Option ProviderErrorKind → Payload
  batch_prepared : ℕ → List String → Payload
  batch_completed : ℕ → Payload
  assistant_content : String → Bool → Payload
  resolved : String → Bool → ℕ → Payload
  manual_resolution : RunStatus → String → String → ℕ → Payload
  attempt_data : String → Payload
  delegation_spawned : String → ℕ → ℕ → Payload
  delegation_terminal : ℕ → RunStatus → String → Payload
  -- {"approval": {"id": ..., "prompt": ...}}; the id may be missing
  approval : Option String → String → Payload
  other : String → Payload

pub record EventRow : Type 0 where
  pub run_id : ℕ
  pub seq : ℕ
  pub event : String
  pub payload : Payload
  pub created_at_ms : ℕ

pub record QueuedRow : Type 0 where
  pub id : ℕ
  pub session : String
  pub run_id : ℕ
  pub message : String
  pub status : RunStatus

pub data ToolStatus : Type 0 where
  prepared tool_running tool_terminal : ToolStatus

pub record ToolRow : Type 0 where
  pub run_id : ℕ
  pub round : ℕ
  pub call_id : String
  pub name : String
  pub status : ToolStatus
  pub effect : String
  pub argument_digest : String
  pub started_at_ms : Option ℕ
  pub finished_at_ms : Option ℕ
  pub outcome : Option String
  pub artifact_ref : Option String
  pub safe_to_replay : Bool
  pub receipt : Option String

pub data InteractionStatus : Type 0 where
  pending answered rejected orphaned : InteractionStatus

-- `response` is the "approved" of the answer's JSON.
pub record InteractionRow : Type 0 where
  pub id : String
  pub run_id : ℕ
  pub status : InteractionStatus
  pub prompt : String
  pub response : Option Bool
  pub revision : ℕ

pub data AttemptStatus : Type 0 where
  started attempt_succeeded attempt_failed attempt_cancelled : AttemptStatus

-- `rest` is the text of the attempt's other fields.
pub record AttemptRow : Type 0 where
  pub attempt_id : String
  pub run_id : ℕ
  pub round : ℕ
  pub candidate_index : ℕ
  pub status : AttemptStatus
  pub error_kind : Option ProviderErrorKind
  pub rest : String

-- The columns of a finished run that `mark_terminal_in` copies.
pub record TerminalJson : Type 0 where
  pub status : RunStatus
  pub content : Option String
  pub error_code : Option ℤ
  pub error_message : Option String

pub data ResultState : Type 0 where
  unconsumed reserved delivered : ResultState

pub record DelegationRow : Type 0 where
  pub root_session : String
  pub root_run : ℕ
  pub parent_session : String
  pub parent_run : ℕ
  pub spawn_key : String
  pub child_session : String
  pub child_run : ℕ
  pub depth : ℕ
  pub status : RunStatus
  pub created_at_ms : ℕ
  pub started_at_ms : Option ℕ
  pub finished_at_ms : Option ℕ
  pub tools : List String
  pub permission_mode : String
  pub route_json : Option String
  pub cwd : String
  pub max_rounds : ℕ
  pub max_tokens : ℕ
  pub max_tool_calls : ℕ
  pub deadline_ms : ℕ
  pub terminal_json : Option TerminalJson
  pub result_state : ResultState
  pub reservation_owner : Option String
  pub revision : ℕ
  pub reservation_released_at_ms : Option ℕ
  pub reservation_expires_at_ms : Option ℕ

pub record Db : Type 0 where
  pub sessions : List String
  pub runs : List Run
  pub turns : List Turn
  pub routes : List (ℕ × String)
  pub events : List EventRow
  pub queue : List QueuedRow
  pub tools : List ToolRow
  pub interactions : List InteractionRow
  pub attempts : List AttemptRow
  pub delegations : List DelegationRow

abbrev pub empty_db : Db
empty_db = record {
  sessions = [];
  runs = [];
  turns = [];
  routes = [];
  events = [];
  queue = [];
  tools = [];
  interactions = [];
  attempts = [];
  delegations = [];
}

-- The texts of the status column read back as the statuses that were written.
pub parse-as_str : (status : RunStatus) → parse (as_str status) ≡ ok status
unfolding parse as_str
parse-as_str queued = refl
parse-as_str _ = refl
