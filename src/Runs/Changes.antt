-- ===== src/Runs/Changes.antt =====
-- How the operations of src/storage/mod.rs may change the rows of `runs` and `events`: a step
-- relation that leaves out everything else, and the invariants that every sequence of its steps
-- keeps.
pub mod Sound
pub mod Settled
pub mod Requests
use dtcoder_test.Prelude.{
  ℕ, zero, suc, ◌+◌, ◌-◌, ◌*◌, ◌≤◌, ◌<◌, min, max, ◌≡◌, ◌≢◌, refl, ap, sym, ◌∙◌, ◌⊎◌, inl, inr,
  String, Bool, true, false, not, ◌&&◌, ◌||◌, Option, none, some, List, [], ◌∷◌, ◌++◌, map, arith,
  ltb, leb, ◌==◌, if◌then◌else◌, is_some, str_eq, eq_iff, str_eq_refl, str_eq_ne, Bool-cases,
  Option-cases, length, All, ltb→lt, ltb→le, leb→le, ==_iff, &&-left, &&-right,
}
use dtcoder_test.Prelude.Int.{ℤ, pos, negsuc, int_eq, sub_ℕ}
use dtcoder_test.Prelude.Tables.{
  first_where, update_where, count_where, select_where, count_where-append, first_where-passes,
}
use dtcoder_test.Result.{
  RuntimeError, cancelled as err_cancelled, persistence, protocol, Result, ok, err, ◌>>=◌, ◌>>◌,
  reject_if,
}
use dtcoder_test.Runs.Types.{
  RunStatus, queued, running, waiting_interaction, completed, failed, cancelled,
  unknown_after_restart, terminal, is_active, is_live, status_eq, as_str, Run, Turn, Payload,
  user_message, run_started, status_only, terminal_data, batch_prepared, batch_completed,
  assistant_content, resolved, manual_resolution, attempt_data, delegation_spawned,
  delegation_terminal, approval, other, EventRow, QueuedRow, ToolStatus, prepared, tool_running,
  tool_terminal, ToolRow, InteractionStatus, pending, answered, rejected, orphaned, InteractionRow,
  AttemptStatus, started, attempt_succeeded, attempt_failed, attempt_cancelled, AttemptRow,
  TerminalJson, ResultState, unconsumed, reserved, delivered, DelegationRow, Db, empty_db,
}
use dtcoder_test.Prelude.Tables.{
  map_option, updated, first_where-update_where, count_where-update_where_le,
  count_where-update_where_mono, count_where-update_where_eq, All-of_count_zero, All-of_first_where,
}
use dtcoder_test.Runs.Rows.{is_run, next_rowid, set_last_seq}
use dtcoder_test.Runs.Queue.{is_writer_in, is_queued_run, start_run}
use dtcoder_test.Runs.Finish.{is_resolution}

pub record View : Type 0 where
  pub runs : List Run
  pub events : List EventRow

abbrev pub view : Db → View
view db = record { runs = db.runs; events = db.events }

-- The life of a run: the moves of its status.
pub data Edge : RunStatus → RunStatus → Type 0 where
  stay : {s : RunStatus} → Edge s s
  begin : Edge queued running
  wait : Edge running waiting_interaction
  resume : Edge waiting_interaction running
  close : {s t : RunStatus} → is_live s ≡ true → terminal t ≡ true → Edge s t
  resolve : {t : RunStatus} → is_resolution t ≡ true → Edge unknown_after_restart t

-- What a statement may do to one row: keep its identity, move along an edge, and make no writer.
pub record Allowed (r r' : Run) : Type 0 where
  pub same_id : r'.rowid ≡ r.rowid
  pub same_session : r'.session ≡ r.session
  pub same_seq : r'.last_seq ≡ r.last_seq
  pub same_request : r'.request_json ≡ r.request_json
  pub same_input : r'.input ≡ r.input
  pub edge : Edge r.status r'.status
  pub no_new_writer : is_active r'.status ≡ true → is_active r.status ≡ true

pub data Change (v : View) : View → Type 0 where
  admits :
      (r : Run)
      → r.rowid ≡ next_rowid v.runs
      → r.status ≡ queued
      → r.last_seq ≡ 0
      → Change v (record v { runs = v.runs ++ (r ∷ []) })
  writes :
      (now : ℕ) (e : EventRow) (r : Run)
      → first_where (is_run e.run_id) v.runs ≡ some r
      → e.seq ≡ r.last_seq + 1
      → Change v (record {
        runs = set_last_seq now e.run_id (r.last_seq + 1) v.runs;
        events = v.events ++ (e ∷ []);
      })
  modifies :
      (p : Run → Bool) (f : Run → Run)
      → All (λ r. p r ≡ true → Allowed r (f r)) v.runs
      → Change v (record v { runs = update_where p f v.runs })
  starts :
      (now id : ℕ) (r : Run)
      → first_where (is_run id) v.runs ≡ some r
      → count_where (is_writer_in (some r.session)) v.runs ≡ 0
      → Change v (record v { runs = update_where (is_queued_run id) (start_run now) v.runs })

pub data PathTo (v : View) : View → Type 0 where
  here : PathTo v v
  next : {w u : View} → PathTo v w → Change w u → PathTo v u

abbrev pub writers : String → List Run → ℕ
writers session = count_where (is_writer_in (some session))

abbrev pub last_seq_of : ℕ → List Run → ℕ
last_seq_of id rs = elim (first_where (is_run id) rs) [ none ↦ 0 | some r ↦ r.last_seq ]

abbrev pub status_of : ℕ → List Run → Option RunStatus
status_of id rs = elim (first_where (is_run id) rs) [ none ↦ none | some r ↦ some r.status ]

-- The numbers of a run's events, oldest first.
abbrev pub seqs_of : ℕ → List EventRow → List ℕ
seqs_of id [] = []
seqs_of id (e ∷ es) = let rest = seqs_of id es in if e.run_id == id then e.seq ∷ rest else rest

-- 1, 2, ..., n
abbrev pub one_to : ℕ → List ℕ
one_to zero = []
one_to (suc n) = one_to n ++ (suc n ∷ [])

pub record IsSound (v : View) : Type 0 where
  pub unique : (id : ℕ) → count_where (is_run id) v.runs ≤ 1
  pub single_writer : (session : String) → writers session v.runs ≤ 1
  pub numbered : (id : ℕ) → seqs_of id v.events ≡ one_to (last_seq_of id v.runs)
