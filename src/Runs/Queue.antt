-- ===== src/Runs/Queue.antt =====
-- src/storage/mod.rs: admission of a message, the queue of a session, and the start of a run.
use dtcoder_test.Prelude.{
  ℕ, ◌+◌, max, String, Bool, true, false, not, ◌&&◌, Option, none, some, List, [], ◌∷◌, ◌++◌, ◌==◌,
  if◌then◌else◌, is_some, str_eq,
}
use dtcoder_test.Prelude.Int.{sub_ℕ}
use dtcoder_test.Prelude.Tables.{first_where, update_where, count_where}
use dtcoder_test.Result.{protocol, Result, ok, err, ◌>>=◌}
use dtcoder_test.Runs.Types.{
  queued, running, cancelled, is_active, is_live, status_eq, Run, user_message, run_started,
  status_only, QueuedRow, DelegationRow, Db,
}
use dtcoder_test.Runs.Rows.{
  is_run, read_run_in, next_rowid, no_rows, insert_event, set_turn, set_queued, is_child,
  mark_terminal_in,
}

pub data AdmissionMode : Type 0 where
  enqueue reject_if_busy : AdmissionMode

pub data Admission : Type 0 where
  new existing : Run → Admission

abbrev pub is_reject_if_busy : AdmissionMode → Bool
is_reject_if_busy enqueue = false
is_reject_if_busy reject_if_busy = true

-- WHERE session_id=?1 AND request_id_json=?2
abbrev pub is_request : String → String → Run → Bool
is_request session request r = str_eq r.session session && str_eq r.request_json request

-- INSERT OR IGNORE INTO sessions
abbrev pub add_session : String → List String → List String
add_session session ss =
    if is_some (first_where (λ s. str_eq s session) ss) then ss else ss ++ (session ∷ [])

-- INTEGER PRIMARY KEY of `queued_messages`
abbrev pub next_queue_id : List QueuedRow → ℕ
next_queue_id [] = 1
next_queue_id (q ∷ qs) = max (q.id + 1) (next_queue_id qs)

abbrev pub add_route : ℕ → Option String → List (ℕ × String) → List (ℕ × String)
add_route id none routes = routes
add_route id (some route) routes = routes ++ ((id, route) ∷ [])

abbrev pub new_run : ℕ → ℕ → String → String → String → Run
new_run now rowid session request input = record {
  rowid = rowid;
  session = session;
  request_json = request;
  status = queued;
  input = input;
  last_seq = 0;
  content = none;
  error_code = none;
  error_message = none;
  created_at_ms = now;
  updated_at_ms = now;
}

-- The rows that a new run gets before its first event.
abbrev pub insert_run : ℕ → ℕ → String → String → String → Option String → Db → Db
insert_run now rowid session request input route db = record db {
  sessions = add_session session db.sessions;
  runs = db.runs ++ (new_run now rowid session request input ∷ []);
  turns = db.turns ++ (record { run_id = rowid; status = queued } ∷ []);
  routes = add_route rowid route db.routes;
}

abbrev pub enqueue_message : String → ℕ → String → Db → Db
enqueue_message session rowid input db = record db {
  queue =
      db.queue
      ++ (record {
        id = next_queue_id db.queue;
        session = session;
        run_id = rowid;
        message = input;
        status = queued;
      }
          ∷ []);
}

-- `read_run_in(..)?.expect("inserted run")`
abbrev pub expect_run : ℕ → Db → Result (Db × Run)
expect_run id db = elim (read_run_in id db) [ none ↦ err no_rows | some r ↦ ok (db, r) ]

-- `admit_with_route` after the request was not found.
unfoldable pub admit_new :
    ℕ → String → String → String → Option String → Db → Result (Db × Admission)
admit_new now session request input route db = do
  let rowid = next_rowid db.runs
  let db1 = insert_run now rowid session request input route db
  db2 ← insert_event now rowid "user_message" (user_message input) db1
  found ← expect_run rowid (enqueue_message session rowid input db2)
  ok (found.0, new found.1)

abbrev pub busy_runs : String → Db → ℕ
busy_runs session db = count_where (λ r. str_eq r.session session && is_live r.status) db.runs

abbrev pub admit_found :
    ℕ
    → String
    → String
    → String
    → AdmissionMode
    → Option String
    → Db
    → Option Run
    → Result (Db × Admission)
admit_found now session request input mode route db (some r) =
    if str_eq r.input input then ok (db, existing r) else err (protocol "相同 request id 的输入内容不同")
admit_found now session request input mode route db none =
    if is_reject_if_busy mode && not (busy_runs session db == 0)
    then err (protocol "session 忙碌")
    else admit_new now session request input route db

unfoldable pub admit_with_route :
    ℕ → String → String → String → AdmissionMode → Option String → Db → Result (Db × Admission)
unfolding admit_new
admit_with_route now session request input mode route db =
    admit_found now session request input mode route db
      (first_where (is_request session request) db.runs)

abbrev pub session_of : ℕ → Db → Option String
session_of id db = elim (read_run_in id db) [ none ↦ none | some r ↦ some r.session ]

abbrev pub opt_str_eq : Option String → String → Bool
opt_str_eq none s = false
opt_str_eq (some t) s = str_eq t s

-- `q.status='queued' AND q.session_id=(SELECT session_id FROM runs WHERE id=?1)`: a comparison with
-- NULL passes no row.
abbrev pub is_waiting_in : Option String → QueuedRow → Bool
is_waiting_in session q = status_eq q.status queued && opt_str_eq session q.session

-- The row at the head of the session's queue.
abbrev pub candidate : ℕ → Db → Option QueuedRow
candidate id db = first_where (is_waiting_in (session_of id db)) db.queue

abbrev pub is_candidate : ℕ → Option QueuedRow → Bool
is_candidate id none = false
is_candidate id (some q) = q.run_id == id

abbrev pub is_writer_in : Option String → Run → Bool
is_writer_in session r = opt_str_eq session r.session && is_active r.status

abbrev pub is_queued_run : ℕ → Run → Bool
is_queued_run id r = is_run id r && status_eq r.status queued

abbrev pub start_run : ℕ → Run → Run
start_run now r = record r { status = running; updated_at_ms = now }

abbrev pub start_delegation : ℕ → ℕ → List DelegationRow → List DelegationRow
start_delegation now id =
    update_where (is_child id) (λ d. record d { status = running; started_at_ms = some now })

-- The statements after the UPDATE of `runs` has changed one row.
unfoldable pub started_rows : ℕ → ℕ → Db → Result Db
started_rows now id db = do
  found ← expect_run id db
  db1 ← insert_event now id "run_started" (run_started (sub_ℕ now found.1.created_at_ms)) db
  ok (record db1 {
    turns = set_turn id running db1.turns;
    queue = set_queued id running db1.queue;
    delegations = start_delegation now id db1.delegations;
  })

unfoldable pub try_start_queued : ℕ → ℕ → Db → Result (Db × Bool)
unfolding started_rows
try_start_queued now id db =
    if not (is_candidate id (candidate id db))
    then ok (db, false)
    else if not (count_where (is_writer_in (session_of id db)) db.runs == 0)
    then ok (db, false)
    else (let changed = count_where (is_queued_run id) db.runs in
        let db1 = record db { runs = update_where (is_queued_run id) (start_run now) db.runs } in
        if changed == 1
        then started_rows now id db1 >>= (λ db2. ok (db2, true))
        else ok (db1, false))

abbrev pub cancel_queued : ℕ → List QueuedRow → List QueuedRow
cancel_queued id =
    update_where (λ q. q.run_id == id && status_eq q.status queued)
      (λ q. record q { status = cancelled })

unfoldable pub removed_rows : ℕ → ℕ → Db → Result Db
removed_rows now id db = do
  let db1 = record db { turns = set_turn id cancelled db.turns; queue = cancel_queued id db.queue }
  db2 ← insert_event now id "terminal" (status_only cancelled) db1
  found ← expect_run id db2
  mark_terminal_in now found.1 db2

unfoldable pub remove_queued : ℕ → ℕ → Db → Result (Db × Bool)
unfolding removed_rows
remove_queued now id db =
    let changed = count_where (is_queued_run id) db.runs in
    let db1 = record db {
      runs =
          update_where (is_queued_run id)
            (λ r. record r { status = cancelled; updated_at_ms = now }) db.runs;
    } in
    if changed == 1 then removed_rows now id db1 >>= (λ db2. ok (db2, true)) else ok (db1, false)
