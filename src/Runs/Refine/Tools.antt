-- ===== src/Runs/Refine/Tools.antt =====
-- The operations on tool calls follow the step relation: they move no run.
use dtcoder_test.Prelude.{ℕ, String, Option, none, some, List, ◌==◌, length}
use dtcoder_test.Prelude.Tables.{first_where, count_where}
use dtcoder_test.Result.{Result, ok, err}
use dtcoder_test.Runs.Types.{running, status_eq, Run, prepared, tool_running, Db}
use dtcoder_test.Result.{Ensures, Ensures-bind, Ensures-if}
use dtcoder_test.Runs.Changes.{view, PathTo, here}
use dtcoder_test.Runs.Refine.{From, insert_event-From}
use dtcoder_test.Runs.Rows.{read_run_in, is_child}
use dtcoder_test.Runs.Tools.{
  PreparedCall, is_call_in, insert_calls, check_tool_budget, prepare_running, prepare_read,
  prepare_tool_batch, start_tool, finish_tool, finish_tool_batch, incomplete_in_round,
}

prepare_running-From :
    (now id round : ℕ) (calls : List PreparedCall) (db : Db)
    → Ensures (From db) (prepare_running now id round calls db)
unfolding prepare_running
prepare_running-From now id round calls db =
    Ensures-bind (λ _. Unit {0}) (From db)
      (check_tool_budget id (length calls) (first_where (is_child id) db.delegations) db.tools) _
      (anything _)
      (λ _ _.
        Ensures-bind (λ _. Unit {0}) (From db) (insert_calls id round calls db.tools) _ (anything _)
          (λ tools _. insert_event-From now id _ _ db (record db { tools = tools }) here))
  where
    anything : {A : Type 0} (m : Result A) → Ensures (λ _. Unit {0}) m
    anything (ok a) = tt
    anything (err e) = tt

pub prepare_tool_batch-From :
    (now id round : ℕ) (calls : List PreparedCall) (db : Db)
    → Ensures (λ db'. PathTo (view db) (view db')) (prepare_tool_batch now id round calls db)
unfolding prepare_tool_batch
prepare_tool_batch-From now id round calls db = go (read_run_in id db)
  where
    go : (o : Option Run) → Ensures (From db) (prepare_read now id round calls db o)
    go none = tt
    go (some r) =
        Ensures-if (From db) (status_eq r.status running) (prepare_running now id round calls db) _
          (λ e. prepare_running-From now id round calls db) (λ e. tt)

pub start_tool-From :
    (now id round : ℕ) (call : String) (db : Db)
    → Ensures (λ db'. PathTo (view db) (view db')) (start_tool now id round call db)
unfolding start_tool
start_tool-From now id round call db =
    Ensures-if (From db) (count_where (is_call_in prepared id round call) db.tools == 1) _ _
      (λ e. here) (λ e. tt)

pub finish_tool-From :
    (now id round : ℕ) (call outcome : String) (artifact : Option String) (receipt : String)
    (db : Db)
    → Ensures
        (λ db'. PathTo (view db) (view db'))
        (finish_tool now id round call outcome artifact receipt db)
unfolding finish_tool
finish_tool-From now id round call outcome artifact receipt db =
    Ensures-if (From db) (count_where (is_call_in tool_running id round call) db.tools == 1) _ _
      (λ e. here) (λ e. tt)

pub finish_tool_batch-From :
    (now id round : ℕ) (db : Db)
    → Ensures (λ db'. PathTo (view db) (view db')) (finish_tool_batch now id round db)
unfolding finish_tool_batch
finish_tool_batch-From now id round db =
    Ensures-if (From db) (incomplete_in_round id round db == 0) _ _
      (λ e. insert_event-From now id _ _ db db here) (λ e. tt)
