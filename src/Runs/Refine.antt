-- ===== src/Runs/Refine.antt =====
-- The operations of src/storage/mod.rs follow the step relation: events and the rows that every
-- operation reads.
pub mod Queue
pub mod Tools
pub mod Interactions
pub mod Finish
pub mod Recover
use dtcoder_test.Prelude.{
  ℕ, zero, suc, ◌+◌, ◌-◌, ◌*◌, ◌≤◌, ◌<◌, min, max, ◌≡◌, ◌≢◌, refl, ap, sym, ◌∙◌, ◌⊎◌, inl, inr,
  String, Bool, true, false, not, ◌&&◌, ◌||◌, Option, none, some, List, [], ◌∷◌, ◌++◌, map, arith,
  ltb, leb, ◌==◌, if◌then◌else◌, is_some, str_eq, eq_iff, str_eq_refl, str_eq_ne, Bool-cases,
  Option-cases, length, All, ltb→lt, ltb→le, leb→le, ==_iff, &&-left, &&-right,
}
use dtcoder_test.Prelude.Int.{ℤ, pos, negsuc, int_eq, sub_ℕ}
use dtcoder_test.Prelude.Tables.{
  first_where, update_where, count_where, select_where, count_where-append, first_where-passes,
}
use dtcoder_test.Result.{
  RuntimeError, cancelled as err_cancelled, persistence, protocol, Result, ok, err, ◌>>=◌, ◌>>◌,
  reject_if,
}
use dtcoder_test.Runs.Types.{
  RunStatus, queued, running, waiting_interaction, completed, failed, cancelled,
  unknown_after_restart, terminal, is_active, is_live, status_eq, as_str, Run, Turn, Payload,
  user_message, run_started, status_only, terminal_data, batch_prepared, batch_completed,
  assistant_content, resolved, manual_resolution, attempt_data, delegation_spawned,
  delegation_terminal, approval, other, EventRow, QueuedRow, ToolStatus, prepared, tool_running,
  tool_terminal, ToolRow, InteractionStatus, pending, answered, rejected, orphaned, InteractionRow,
  AttemptStatus, started, attempt_succeeded, attempt_failed, attempt_cancelled, AttemptRow,
  TerminalJson, ResultState, unconsumed, reserved, delivered, DelegationRow, Db, empty_db,
}
use dtcoder_test.Result.{
  Ensures, Ensures-bind, Ensures-if, Ensures-reject, Ensures_of_ok, Ensures-map,
}
use dtcoder_test.Prelude.Tables.{All-of_first_where}
use dtcoder_test.Runs.Rows.{
  is_run, read_run_in, next_rowid, set_last_seq, push_event, push_event_for, insert_event,
  mark_terminal_in, mark_terminal_for, tell_parent, close_delegation, summary, is_child,
}
use dtcoder_test.Runs.Queue.{expect_run}
use dtcoder_test.Runs.Changes.{
  View, view, Edge, stay, begin, wait, resume, close, resolve, Allowed, Change, admits, writes,
  modifies, starts, PathTo, here, next, IsSound,
}
use dtcoder_test.Runs.Changes.Sound.{PathTo-IsSound}
use dtcoder_test.Runs.Changes.Settled.{PathTo-trans, Continues, Change-Continues}

-- The state `db'` is reached from `db`, and the run `id` is in it with the session and the status
-- that it had in the row `r`.
pub record Tracks (id : ℕ) (r : Run) (db db' : Db) : Type 0 where
  pub path : PathTo (view db) (view db')
  pub row : Run
  pub found : read_run_in id db' ≡ some row
  pub same_status : row.status ≡ r.status
  pub same_session : row.session ≡ r.session

push_event_for-PathTo :
    (now id : ℕ) (event : String) (payload : Payload) (db : Db) (o : Option Run)
    → read_run_in id db ≡ o
    → Ensures (λ db'. PathTo (view db) (view db')) (push_event_for now id event payload db o)
push_event_for-PathTo now id event payload db none e = tt
push_event_for-PathTo now id event payload db (some r) e = next here (
    writes now
      (record {
        run_id = id;
        seq = r.last_seq + 1;
        event = event;
        payload = payload;
        created_at_ms = now;
      })
      r e refl)

pub insert_event-PathTo :
    (now id : ℕ) (event : String) (payload : Payload) (db : Db)
    → Ensures (λ db'. PathTo (view db) (view db')) (insert_event now id event payload db)
unfolding insert_event
insert_event-PathTo now id event payload db =
    push_event_for-PathTo now id event payload db (read_run_in id db) refl

tell_parent-PathTo :
    (now : ℕ) (run : Run) (parent : Option Run) (db : Db)
    → Ensures (λ db'. PathTo (view db) (view db')) (tell_parent now run parent db)
tell_parent-PathTo now run none db = here
tell_parent-PathTo now run (some parent) db =
    Ensures-if _ (terminal parent.status) (ok db) _ (λ e. here)
      (λ e. insert_event-PathTo now parent.rowid _ _ db)

mark_terminal_for-PathTo :
    (now : ℕ) (run : Run) (d : Option DelegationRow) (db : Db)
    → Ensures (λ db'. PathTo (view db) (view db')) (mark_terminal_for now run d db)
mark_terminal_for-PathTo now run none db = here
mark_terminal_for-PathTo now run (some d) db =
    let db1 : Db = record db { delegations = close_delegation now run db.delegations } in
    tell_parent-PathTo now run (read_run_in d.parent_run db1) db1

pub mark_terminal_in-PathTo :
    (now : ℕ) (run : Run) (db : Db)
    → Ensures (λ db'. PathTo (view db) (view db')) (mark_terminal_in now run db)
unfolding mark_terminal_in
mark_terminal_in-PathTo now run db =
    mark_terminal_for-PathTo now run (first_where (is_child run.rowid) db.delegations) db

push_event-found :
    (now id j : ℕ) (seq : ℕ) (r : Run) (rs : List Run)
    → first_where (is_run j) rs ≡ some r
    → (row : Run) × (first_where (is_run j) (set_last_seq now id seq rs) ≡ some row)
      × (row.status ≡ r.status)
      × (row.session ≡ r.session)
push_event-found now id j seq r [] h = absurd (cc)
push_event-found now id j seq r (x ∷ rs) h = elim (Bool-cases (is_run j x)) [
  | inl here' ↦
      let same : x ≡ r = ground arith in
      elim (Bool-cases (is_run id x)) [
        | inl e ↦ (
          record x { last_seq = seq; updated_at_ms = now },
          rw (e, here') refl,
          rw same refl,
          rw same refl,
        )
        | inr e ↦ (r, rw (e, here', same) refl, refl, refl)
      ]
  | inr else' ↦
      let (row, found, st, se) = push_event-found now id j seq r rs (ground arith) in
      (
        row,
        elim (Bool-cases (is_run id x)) [
          | inl e ↦ rw (e, else') found
          | inr e ↦ rw (e, else') found
        ],
        st,
        se,
      )
]

push_event_for-Tracks :
    (now id : ℕ) (event : String) (payload : Payload) (j : ℕ) (r : Run) (db0 db : Db)
    (o : Option Run)
    → read_run_in id db ≡ o
    → Tracks j r db0 db
    → Ensures (Tracks j r db0) (push_event_for now id event payload db o)
push_event_for-Tracks now id event payload j r db0 db none e t = tt
push_event_for-Tracks now id event payload j r db0 db (some x) e t =
    let (row, found, st, se) = push_event-found now id j (x.last_seq + 1) t.row db.runs t.found in
    record {
      path = PathTo-trans t.path (push_event_for-PathTo now id event payload db (some x) e);
      row = row;
      found = found;
      same_status = st ∙ t.same_status;
      same_session = se ∙ t.same_session;
    }

-- An event leaves the status and the session of every run as they are.
pub insert_event-Tracks :
    (now id : ℕ) (event : String) (payload : Payload) (j : ℕ) (r : Run) (db0 db : Db)
    → Tracks j r db0 db
    → Ensures (Tracks j r db0) (insert_event now id event payload db)
unfolding insert_event
insert_event-Tracks now id event payload j r db0 db t =
    push_event_for-Tracks now id event payload j r db0 db (read_run_in id db) refl t

-- The rows with the id of a tracked run may be given another status along an edge.
pub Allowed-at :
    (id : ℕ) (r : Run) (f : Run → Run) (p : Run → Bool) (db0 db : Db)
    → IsSound (view db0)
    → Tracks id r db0 db
    → ((x : Run) → p x ≡ true → is_run id x ≡ true)
    → ((x : Run) → x.status ≡ r.status → Allowed x (f x))
    → All (λ x. p x ≡ true → Allowed x (f x)) db.runs
Allowed-at id r f p db0 db sound t only step = narrow db.runs (
    All-of_first_where (is_run id) (λ x. Allowed x (f x)) db.runs t.row
      ((PathTo-IsSound t.path sound).unique id) t.found (step t.row t.same_status))
  where
    narrow :
        (rs : List Run)
        → All (λ x. is_run id x ≡ true → Allowed x (f x)) rs
        → All (λ x. p x ≡ true → Allowed x (f x)) rs
    narrow [] h = tt
    narrow (x ∷ rs) h = (λ e. h.0 (only x e), narrow rs h.1)

pub expect_run-Ensures {κ} :
    (P : Db × Run → Type κ) (id : ℕ) (db : Db)
    → ((r : Run) → read_run_in id db ≡ some r → P (db, r))
    → Ensures P (expect_run id db)
expect_run-Ensures P id db h = go (read_run_in id db) refl
  where
    go :
        (o : Option Run)
        → read_run_in id db ≡ o
        → Ensures P
            (elim o [ none ↦ err (persistence "Query returned no rows") | some r ↦ ok (db, r) ])
    go none e = tt
    go (some r) e = h r e

-- `db'` is reached from `db`.
abbrev pub From : Db → Db → Type 0
From db db' = PathTo (view db) (view db')

pub insert_event-From :
    (now id : ℕ) (event : String) (payload : Payload) (db0 db : Db)
    → From db0 db
    → Ensures (From db0) (insert_event now id event payload db)
insert_event-From now id event payload db0 db p =
    Ensures-map (From db) (From db0) (insert_event now id event payload db)
      (λ a q. PathTo-trans p q) (insert_event-PathTo now id event payload db)

pub Tracks-start : (id : ℕ) (r : Run) (db : Db) → read_run_in id db ≡ some r → Tracks id r db db
Tracks-start id r db found = record {
  path = here;
  row = r;
  found = found;
  same_status = refl;
  same_session = refl;
}

tell_parent-Tracks :
    (now : ℕ) (run : Run) (parent : Option Run) (j : ℕ) (r : Run) (db0 db : Db)
    → Tracks j r db0 db
    → Ensures (Tracks j r db0) (tell_parent now run parent db)
tell_parent-Tracks now run none j r db0 db t = t
tell_parent-Tracks now run (some parent) j r db0 db t =
    Ensures-if (Tracks j r db0) (terminal parent.status) (ok db) _ (λ e. t)
      (λ e. insert_event-Tracks now parent.rowid _ _ j r db0 db t)

mark_terminal_for-Tracks :
    (now : ℕ) (run : Run) (d : Option DelegationRow) (j : ℕ) (r : Run) (db0 db : Db)
    → Tracks j r db0 db
    → Ensures (Tracks j r db0) (mark_terminal_for now run d db)
mark_terminal_for-Tracks now run none j r db0 db t = t
mark_terminal_for-Tracks now run (some d) j r db0 db t =
    let db1 : Db = record db { delegations = close_delegation now run db.delegations } in
    tell_parent-Tracks now run (read_run_in d.parent_run db1) j r db0 db1 (record {
      path = t.path;
      row = t.row;
      found = t.found;
      same_status = t.same_status;
      same_session = t.same_session;
    })

-- Telling a parent leaves the status of every run as it is.
pub mark_terminal_in-Tracks :
    (now : ℕ) (run : Run) (j : ℕ) (r : Run) (db0 db : Db)
    → Tracks j r db0 db
    → Ensures (Tracks j r db0) (mark_terminal_in now run db)
unfolding mark_terminal_in
mark_terminal_in-Tracks now run j r db0 db t =
    mark_terminal_for-Tracks now run (first_where (is_child run.rowid) db.delegations) j r db0 db t
