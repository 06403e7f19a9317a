-- ===== src/Runs/Rows.antt =====
-- src/storage/mod.rs: reading a run, writing an event, and what both the queue and the end of a
-- run use. `now` is the value of `now_ms()`, which is read once for an operation.
use dtcoder_test.Prelude.{
  ℕ, zero, suc, ◌+◌, max, String, Bool, Option, none, some, List, [], ◌∷◌, ◌++◌, ◌==◌,
  if◌then◌else◌,
}
use dtcoder_test.Prelude.Tables.{first_where, update_where}
use dtcoder_test.Result.{RuntimeError, persistence, Result, ok, err}
use dtcoder_test.Runs.Types.{
  RunStatus, terminal, Run, Turn, Payload, delegation_terminal, QueuedRow, DelegationRow, Db,
}

abbrev pub is_run : ℕ → Run → Bool
is_run id r = r.rowid == id

-- `read_run_in`
abbrev pub read_run_in : ℕ → Db → Option Run
read_run_in id db = first_where (is_run id) db.runs

-- The rowid that SQLite gives to the next row of `runs`: one more than the largest.
abbrev pub next_rowid : List Run → ℕ
next_rowid [] = 1
next_rowid (r ∷ rs) = max (r.rowid + 1) (next_rowid rs)

abbrev pub no_rows : RuntimeError
no_rows = persistence "Query returned no rows"

-- UPDATE runs SET last_seq=?2, updated_at_ms=?3 WHERE id=?1
abbrev pub set_last_seq : ℕ → ℕ → ℕ → List Run → List Run
set_last_seq now id seq =
    update_where (is_run id) (λ r. record r { last_seq = seq; updated_at_ms = now })

-- The two statements of `insert_event` that write, for a run whose row was read.
abbrev pub push_event : ℕ → ℕ → String → Payload → ℕ → Db → Db
push_event now id event payload seq db = record db {
  events =
      db.events
      ++ (record { run_id = id; seq = seq; event = event; payload = payload; created_at_ms = now }
          ∷ []);
  runs = set_last_seq now id seq db.runs;
}

abbrev pub push_event_for : ℕ → ℕ → String → Payload → Db → Option Run → Result Db
push_event_for now id event payload db none = err no_rows
push_event_for now id event payload db (some r) =
    ok (push_event now id event payload (r.last_seq + 1) db)

unfoldable pub insert_event : ℕ → ℕ → String → Payload → Db → Result Db
insert_event now id event payload db = push_event_for now id event payload db (read_run_in id db)

-- UPDATE turns SET status=?2 WHERE run_id=?1
abbrev pub set_turn : ℕ → RunStatus → List Turn → List Turn
set_turn id status = update_where (λ t. t.run_id == id) (λ t. record t { status = status })

-- UPDATE queued_messages SET status=?2 WHERE run_id=?1
abbrev pub set_queued : ℕ → RunStatus → List QueuedRow → List QueuedRow
set_queued id status = update_where (λ q. q.run_id == id) (λ q. record q { status = status })

abbrev pub is_child : ℕ → DelegationRow → Bool
is_child id d = d.child_run == id

-- `.chars().take(n)`
abbrev pub take_chars : ℕ → String → String
take_chars zero s = String.[]
take_chars (suc n) String.[] = String.[]
take_chars (suc n) (String.◌∷◌ c s) = String.◌∷◌ c (take_chars n s)

-- `as_deref().unwrap_or("").chars().take(512)`
abbrev pub summary : Option String → String
summary none = ""
summary (some content) = take_chars 512 content

-- The UPDATE of `mark_terminal_in`.
abbrev pub close_delegation : ℕ → Run → List DelegationRow → List DelegationRow
close_delegation now run = update_where (is_child run.rowid) (λ d. record d {
  status = run.status;
  finished_at_ms = some now;
  terminal_json = some (record {
    status = run.status;
    content = run.content;
    error_code = run.error_code;
    error_message = run.error_message;
  });
})

-- The event that a parent gets while it is not over.
abbrev pub tell_parent : ℕ → Run → Option Run → Db → Result Db
tell_parent now run none db = ok db
tell_parent now run (some parent) db =
    if terminal parent.status
    then ok db
    else insert_event now parent.rowid "delegation_terminal"
        (delegation_terminal run.rowid run.status (summary run.content)) db

abbrev pub mark_terminal_for : ℕ → Run → Option DelegationRow → Db → Result Db
mark_terminal_for now run none db = ok db
mark_terminal_for now run (some d) db =
    let db1 = record db { delegations = close_delegation now run db.delegations } in
    tell_parent now run (read_run_in d.parent_run db1) db1

-- `mark_terminal_in` of src/storage/delegation.rs, with the row of the run that ended.
unfoldable pub mark_terminal_in : ℕ → Run → Db → Result Db
mark_terminal_in now run db =
    mark_terminal_for now run (first_where (is_child run.rowid) db.delegations) db
