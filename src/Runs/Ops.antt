-- ===== src/Runs/Ops.antt =====
-- Any sequence of the operations of src/storage/mod.rs and src/storage/delegation.rs, from an empty
-- database. Each is one transaction under the connection's mutex, so a run of the program is such
-- a sequence; one that fails leaves the database as it was.
pub mod Safety
pub mod Admitted
use dtcoder_test.Prelude.{
  ℕ, zero, suc, ◌+◌, ◌-◌, ◌*◌, ◌≤◌, ◌<◌, min, max, ◌≡◌, ◌≢◌, refl, ap, sym, ◌∙◌, ◌⊎◌, inl, inr,
  String, Bool, true, false, not, ◌&&◌, ◌||◌, Option, none, some, List, [], ◌∷◌, ◌++◌, map, arith,
  ltb, leb, ◌==◌, if◌then◌else◌, is_some, str_eq, eq_iff, str_eq_refl, str_eq_ne, Bool-cases,
  Option-cases, length, All, ltb→lt, ltb→le, leb→le, ==_iff, &&-left, &&-right,
}
use dtcoder_test.Prelude.Int.{ℤ, pos, negsuc, int_eq, sub_ℕ}
use dtcoder_test.Prelude.Tables.{
  first_where, update_where, count_where, select_where, count_where-append, first_where-passes,
}
use dtcoder_test.Result.{
  RuntimeError, cancelled as err_cancelled, persistence, protocol, Result, ok, err, ◌>>=◌, ◌>>◌,
  reject_if,
}
use dtcoder_test.Runs.Types.{
  RunStatus, queued, running, waiting_interaction, completed, failed, cancelled,
  unknown_after_restart, terminal, is_active, is_live, status_eq, as_str, Run, Turn, Payload,
  user_message, run_started, status_only, terminal_data, batch_prepared, batch_completed,
  assistant_content, resolved, manual_resolution, attempt_data, delegation_spawned,
  delegation_terminal, approval, other, EventRow, QueuedRow, ToolStatus, prepared, tool_running,
  tool_terminal, ToolRow, InteractionStatus, pending, answered, rejected, orphaned, InteractionRow,
  AttemptStatus, started, attempt_succeeded, attempt_failed, attempt_cancelled, AttemptRow,
  TerminalJson, ResultState, unconsumed, reserved, delivered, DelegationRow, Db, empty_db,
}
use dtcoder_test.Result.{
  Ensures, Ensures-bind, Ensures-if, Ensures-reject, Ensures_of_ok, Ensures-map,
}
use dtcoder_test.Runs.Changes.{
  View, view, Edge, stay, begin, wait, resume as resume_edge, close, resolve, Allowed, Change,
  admits, writes, modifies, starts, PathTo, here, next, IsSound, writers,
}
use dtcoder_test.Runs.Changes.Sound.{PathTo-IsSound}
use dtcoder_test.Runs.Changes.Settled.{PathTo-trans, Continues, Change-Continues}
use dtcoder_test.Runs.Refine.{
  Tracks, insert_event-PathTo, mark_terminal_in-PathTo, insert_event-Tracks, Allowed-at,
  expect_run-Ensures, From, insert_event-From, Tracks-start,
}
use dtcoder_test.Runs.Rows.{is_run, read_run_in, next_rowid, no_rows, insert_event, is_child}
use dtcoder_test.Runs.Queue.{
  AdmissionMode, Admission, admit_with_route, try_start_queued, remove_queued,
}
use dtcoder_test.Runs.Tools.{
  PreparedCall, prepare_tool_batch, start_tool, finish_tool, finish_tool_batch,
}
use dtcoder_test.Runs.Interactions.{append_event, claim_interaction}
use dtcoder_test.Runs.Attempts.{
  start_provider_attempt, finish_provider_attempt, finish_attempt_found, is_attempt,
  attempt_status_eq, same_attempt, same_owner, set_attempt,
}
use dtcoder_test.Runs.Finish.{FinishError, finish, recover, reconcile_unknown}
use dtcoder_test.Runs.Changes.{one_to, seqs_of, last_seq_of}
use dtcoder_test.Runs.Changes.Settled.{Edges, Lives, PathTo-Lives, is_final, Edges-final}
use dtcoder_test.Runs.Refine.Queue.{
  admit_with_route-From, try_start_queued-From, remove_queued-From,
}
use dtcoder_test.Runs.Refine.Tools.{
  prepare_tool_batch-From, start_tool-From, finish_tool-From, finish_tool_batch-From,
}
use dtcoder_test.Runs.Refine.Interactions.{is_question, append_event-From, claim_interaction-From}
use dtcoder_test.Runs.Refine.Finish.{finish-From, reconcile_unknown-From}
use dtcoder_test.Runs.Refine.Recover.{recover-From}
use dtcoder_test.Delegations.{DelegationRequest, admit_delegation}
use dtcoder_test.Delegations.Results.{
  Target, set_delegation, reserve_found, transition_found, reserve_read, transition_read,
  reserve_delegation_result, transition_result,
}
use dtcoder_test.Delegations.Bounds.{admit_delegation-From}

pub data Op : Type 0 where
  admit : ℕ → String → String → String → AdmissionMode → Option String → Op
  start : ℕ → ℕ → Op
  remove : ℕ → ℕ → Op
  prepare_tools : ℕ → ℕ → ℕ → List PreparedCall → Op
  begin_tool : ℕ → ℕ → ℕ → String → Op
  end_tool : ℕ → ℕ → ℕ → String → String → Option String → String → Op
  end_batch : ℕ → ℕ → ℕ → Op
  append : ℕ → ℕ → String → Payload → Op
  claim : ℕ → String → String → ℕ → ℕ → Bool → Op
  start_attempt : ℕ → AttemptRow → Op
  end_attempt : ℕ → AttemptRow → Op
  end : ℕ → ℕ → RunStatus → Option String → FinishError → Op
  reconcile : ℕ → ℕ → String → ℕ → RunStatus → Option String → String → Op
  restart : ℕ → Op
  delegate : ℕ → DelegationRequest → Op
  reserve_result : ℕ → ℕ → String → ℕ → Op
  move_result : ℕ → ℕ → String → ℕ → Target → Op

abbrev pub state_or : Db → Result Db → Db
state_or db (ok db') = db'
state_or db (err e) = db

abbrev pub first_or {ℓ} : {A : Type ℓ} → Db → Result (Db × A) → Db
first_or db (ok p) = p.0
first_or db (err e) = db

-- A question is asked only by a run that executes or is held up by another question.
abbrev pub IsGuarded : Op → Db → Type 0
IsGuarded (append now id event payload) db =
    (r : Run)
    → read_run_in id db ≡ some r
    → is_question event payload ≡ true
    → is_active r.status ≡ true
IsGuarded _ db = Unit {0}

module _ (sha256 to_json : String → String) where
  unfoldable pub apply : Op → Db → Db
  apply (admit now session request input mode route) db =
      first_or db (admit_with_route now session request input mode route db)
  apply (start now id) db = first_or db (try_start_queued now id db)
  apply (remove now id) db = first_or db (remove_queued now id db)
  apply (prepare_tools now id round calls) db =
      state_or db (prepare_tool_batch now id round calls db)
  apply (begin_tool now id round call) db = state_or db (start_tool now id round call db)
  apply (end_tool now id round call outcome artifact receipt) db =
      state_or db (finish_tool now id round call outcome artifact receipt db)
  apply (end_batch now id round) db = state_or db (finish_tool_batch now id round db)
  apply (append now id event payload) db = state_or db (append_event now id event payload db)
  apply (claim now id session run revision approved) db =
      state_or db (claim_interaction now id session run revision approved db)
  apply (start_attempt now a) db = state_or db (start_provider_attempt now a db)
  apply (end_attempt now a) db = state_or db (finish_provider_attempt now a db)
  apply (end now id status content error) db = first_or db (finish now id status content error db)
  apply (reconcile now id session expected status content evidence) db =
      first_or db (reconcile_unknown sha256 now id session expected status content evidence db)
  apply (restart now) db = first_or db (recover now db)
  apply (delegate now q) db = first_or db (admit_delegation to_json now q db)
  apply (reserve_result now child owner revision) db =
      state_or db (reserve_delegation_result now child owner revision db)
  apply (move_result now child owner revision target) db =
      state_or db (transition_result now child owner revision target db)

  -- `db'` is reached from `db` by operations that ask questions of active runs only.
  pub data Reach (db : Db) : Db → Type 0 where
    initial : Reach db db
    then_apply : {db1 : Db} → Reach db db1 → (op : Op) → IsGuarded op db1 → Reach db (apply op db1)
