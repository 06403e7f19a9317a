-- ===== src/Runs/Refine/Queue.antt =====
-- Admission, start and removal from the queue follow the step relation.
use dtcoder_test.Prelude.{
  ℕ, ◌≡◌, refl, inl, inr, String, Bool, true, false, not, ◌&&◌, Option, none, some, List, [], ◌∷◌,
  arith, ◌==◌, if◌then◌else◌, str_eq, Option-cases, All,
}
use dtcoder_test.Prelude.Int.{sub_ℕ}
use dtcoder_test.Prelude.Tables.{first_where, update_where, count_where}
use dtcoder_test.Result.{ok, ◌>>=◌}
use dtcoder_test.Runs.Types.{cancelled, Run, user_message, run_started, status_only, QueuedRow, Db}
use dtcoder_test.Result.{Ensures, Ensures-bind, Ensures-if, Ensures-map}
use dtcoder_test.Runs.Changes.{
  view, close, Allowed, admits, modifies, starts, PathTo, here, next, writers,
}
use dtcoder_test.Runs.Changes.Settled.{PathTo-trans}
use dtcoder_test.Runs.Refine.{mark_terminal_in-PathTo, expect_run-Ensures, From, insert_event-From}
use dtcoder_test.Runs.Rows.{read_run_in, next_rowid, insert_event, set_turn, mark_terminal_in}
use dtcoder_test.Runs.Queue.{
  AdmissionMode, existing, is_reject_if_busy, is_request, new_run, insert_run, enqueue_message,
  expect_run, admit_new, busy_runs, admit_found, admit_with_route, session_of, candidate,
  is_candidate, is_waiting_in, is_writer_in, is_queued_run, start_run, started_rows,
  try_start_queued, removed_rows, remove_queued, cancel_queued,
}

admit_new-From :
    (now : ℕ) (session request input : String) (route : Option String) (db : Db)
    → Ensures (λ p. From db p.0) (admit_new now session request input route db)
unfolding admit_new
admit_new-From now session request input route db =
    let rowid = next_rowid db.runs in
    let db1 = insert_run now rowid session request input route db in
    Ensures-bind (From db) (λ p. From db p.0)
      (insert_event now rowid "user_message" (user_message input) db1) _
      (insert_event-From now rowid _ _ db db1
        (next here (admits (new_run now rowid session request input) refl refl refl)))
      (λ db2 p.
        Ensures-bind (λ x. From db x.0) (λ x. From db x.0)
          (expect_run rowid (enqueue_message session rowid input db2)) _
          (expect_run-Ensures _ rowid (enqueue_message session rowid input db2) (λ r e. p))
          (λ x q. q))

admit_found-From :
    (now : ℕ) (session request input : String) (mode : AdmissionMode) (route : Option String)
    (db : Db) (o : Option Run)
    → Ensures (λ p. From db p.0) (admit_found now session request input mode route db o)
admit_found-From now session request input mode route db (some r) =
    Ensures-if _ (str_eq r.input input) (ok (db, existing r)) _ (λ e. here) (λ e. tt)
admit_found-From now session request input mode route db none =
    Ensures-if _ (is_reject_if_busy mode && not (busy_runs session db == 0)) _
      (admit_new now session request input route db) (λ e. tt)
      (λ e. admit_new-From now session request input route db)

pub admit_with_route-From :
    (now : ℕ) (session request input : String) (mode : AdmissionMode) (route : Option String)
    (db : Db)
    → Ensures
        (λ p. PathTo (view db) (view p.0))
        (admit_with_route now session request input mode route db)
unfolding admit_with_route
admit_with_route-From now session request input mode route db =
    admit_found-From now session request input mode route db
      (first_where (is_request session request) db.runs)

started_rows-From :
    (now id : ℕ) (db0 db : Db) → From db0 db → Ensures (From db0) (started_rows now id db)
unfolding started_rows
started_rows-From now id db0 db p =
    Ensures-bind (λ x. From db0 x.0) (From db0) (expect_run id db) _
      (expect_run-Ensures _ id db (λ r e. p))
      (λ x q.
        Ensures-bind (From db0) (From db0)
          (insert_event now id "run_started" (run_started (sub_ℕ now x.1.created_at_ms)) db) _
          (insert_event-From now id _ _ db0 db p) (λ db1 r. r))

no_session : (qs : List QueuedRow) → first_where (is_waiting_in none) qs ≡ none
no_session [] = refl
no_session (q ∷ qs) = ground (arith, no_session qs)

session_of_found :
    (id : ℕ) (db : Db) (r : Run) → read_run_in id db ≡ some r → session_of id db ≡ some r.session
session_of_found id db r h = ground arith

-- A run that is not stored is nobody's candidate.
no_candidate :
    (id : ℕ) (db : Db) → read_run_in id db ≡ none → is_candidate id (candidate id db) ≡ false
no_candidate id db h =
    let none_there : session_of id db ≡ none = ground arith in
    rw (none_there, no_session db.queue) refl

start-From :
    (now id : ℕ) (db : Db) (r : Run)
    → read_run_in id db ≡ some r
    → writers r.session db.runs ≡ 0
    → From db (record db { runs = update_where (is_queued_run id) (start_run now) db.runs })
start-From now id db r found idle = next here (starts now id r found idle)

start_rows-From :
    (now id : ℕ) (db : Db) (r : Run)
    → read_run_in id db ≡ some r
    → writers r.session db.runs ≡ 0
    → let db1 : Db = record db { runs = update_where (is_queued_run id) (start_run now) db.runs } in
      Ensures {A = Db × Bool}
        (λ p. From db p.0)
        (if count_where (is_queued_run id) db.runs == 1
          then started_rows now id db1 >>= (λ db2. ok (db2, true))
          else ok (db1, false))
start_rows-From now id db r found idle =
    let db1 : Db = record db { runs = update_where (is_queued_run id) (start_run now) db.runs } in
    let moved = start-From now id db r found idle in
    Ensures-if _ (count_where (is_queued_run id) db.runs == 1) _ _
      (λ e.
        Ensures-bind (From db) (λ p. From db p.0) (started_rows now id db1) (λ db2. ok (db2, true))
          (started_rows-From now id db db1 moved) (λ db2 p. p))
      (λ e. moved)

try_start_found :
    (now id : ℕ) (db : Db) (r : Run)
    → read_run_in id db ≡ some r
    → Ensures (λ p. From db p.0) (try_start_queued now id db)
unfolding try_start_queued
try_start_found now id db r found =
    Ensures-if _ (not (is_candidate id (candidate id db))) _ _ (λ e. here)
      (λ e.
        Ensures-if _ (not (count_where (is_writer_in (session_of id db)) db.runs == 0)) _ _
          (λ e'. here)
          (λ idle.
            start_rows-From now id db r found
              (rw (session_of_found id db r found) at (is_zero _ idle))))
  where
    is_zero : (n : ℕ) → not (n == 0) ≡ false → n ≡ 0
    is_zero n h = ground arith

-- Starting a run follows the step relation.
pub try_start_queued-From :
    (now id : ℕ) (db : Db) → Ensures (λ p. PathTo (view db) (view p.0)) (try_start_queued now id db)
try_start_queued-From now id db = elim (Option-cases (read_run_in id db)) [
  | inl e ↦ unfold try_start_queued in (rw (no_candidate id db e) here)
  | inr (r, e) ↦ try_start_found now id db r e
]

removed_rows-From :
    (now id : ℕ) (db0 db : Db) → From db0 db → Ensures (From db0) (removed_rows now id db)
unfolding removed_rows
removed_rows-From now id db0 db p =
    let db1 : Db = record db {
      turns = set_turn id cancelled db.turns;
      queue = cancel_queued id db.queue;
    } in
    Ensures-bind (From db0) (From db0) (insert_event now id "terminal" (status_only cancelled) db1)
      _ (insert_event-From now id _ _ db0 db1 p)
      (λ db2 q.
        Ensures-bind (λ x. From db0 x.0) (From db0) (expect_run id db2) _
          (expect_run-Ensures _ id db2 (λ r e. q))
          (λ x s.
            Ensures-map (From db2) (From db0) (mark_terminal_in now x.1 db2)
              (λ a z. PathTo-trans q z) (mark_terminal_in-PathTo now x.1 db2)))

cancel-Allowed :
    (now id : ℕ) (rs : List Run)
    → All
        (λ r.
          is_queued_run id r ≡ true
          → Allowed r (record r { status = cancelled; updated_at_ms = now }))
        rs
cancel-Allowed now id [] = tt
cancel-Allowed now id (r ∷ rs) = (
  λ e. record {
    same_id = refl;
    same_session = refl;
    same_seq = refl;
    same_request = refl;
    same_input = refl;
    edge = close (ground arith) refl;
    no_new_writer = λ h. cc;
  },
  cancel-Allowed now id rs,
)

-- Removing a message from the queue follows the step relation.
pub remove_queued-From :
    (now id : ℕ) (db : Db) → Ensures (λ p. PathTo (view db) (view p.0)) (remove_queued now id db)
unfolding remove_queued
remove_queued-From now id db =
    let db1 : Db = record db {
      runs =
          update_where (is_queued_run id)
            (λ r. record r { status = cancelled; updated_at_ms = now }) db.runs;
    } in
    let moved : From db db1 =
      next here (modifies (is_queued_run id) _ (cancel-Allowed now id db.runs)) in
    Ensures-if _ (count_where (is_queued_run id) db.runs == 1) _ _
      (λ e.
        Ensures-bind (From db) (λ p. From db p.0) (removed_rows now id db1) (λ db2. ok (db2, true))
          (removed_rows-From now id db db1 moved) (λ db2 p. p))
      (λ e. moved)
