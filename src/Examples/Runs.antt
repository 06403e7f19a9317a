-- ===== src/Examples/Runs.antt =====
-- The theorems on src/storage/mod.rs at a run that is admitted, started and completed.
use dtcoder_test.Prelude.{◌≡◌, ◌≢◌, refl, String, none, some}
use dtcoder_test.Result.{ok, err, protocol}
use dtcoder_test.Runs.Types.{completed, queued, Run, Db, empty_db}
use dtcoder_test.Runs.Rows.{read_run_in, insert_event, mark_terminal_in}
use dtcoder_test.Runs.Queue.{
  enqueue, reject_if_busy, new, existing, admit_with_route, admit_new, try_start_queued,
  started_rows,
}
use dtcoder_test.Runs.Finish.{finish, finish_found, finish_open}
use dtcoder_test.Runs.Changes.{view, IsSound}
use dtcoder_test.Runs.Changes.Settled.{Lives}
use dtcoder_test.Runs.Ops.{admit, start, end, restart, apply, Reach, initial, then_apply}
use dtcoder_test.Runs.Ops.Safety.{Reach-IsSound, Reach-Lives, Reach-final}
use dtcoder_test.Runs.Ops.Admitted.{admitted_once}

abbrev plain : String → String
plain text = text

abbrev admitted : Db
admitted = apply plain plain (admit 100 "s" "1" "hello" enqueue none) empty_db

abbrev running_db : Db
running_db = apply plain plain (start 150 1) admitted

abbrev finished : Db
finished = apply plain plain (end 200 1 completed (some "hi") none) running_db

abbrev restarted : Db
restarted = apply plain plain (restart 300) finished

to_running : Reach plain plain empty_db running_db
to_running =
    then_apply (then_apply initial (admit 100 "s" "1" "hello" enqueue none) tt) (start 150 1) tt

to_finished : Reach plain plain empty_db finished
to_finished = then_apply to_running (end 200 1 completed (some "hi") none) tt

from_finished : Reach plain plain finished restarted
from_finished = then_apply initial (restart 300) tt

abbrev finished_row : Run
finished_row = record {
  rowid = 1;
  session = "s";
  request_json = "1";
  status = completed;
  input = "hello";
  last_seq = 4;
  content = some "hi";
  error_code = none;
  error_message = none;
  created_at_ms = 100;
  updated_at_ms = 200;
}

finished_found : read_run_in 1 finished ≡ some finished_row
unfolding apply admit_with_route admit_new insert_event try_start_queued started_rows finish
    finish_found finish_open mark_terminal_in
finished_found = refl

Reach-IsSound_example : IsSound (view finished)
Reach-IsSound_example = Reach-IsSound plain plain finished to_finished

Reach-Lives_example : Lives 1 finished_row restarted.runs
Reach-Lives_example =
    Reach-Lives plain plain finished restarted 1 finished_row to_finished from_finished
      finished_found

Reach-final_example :
    (r' : Run) × (read_run_in 1 restarted ≡ some r') × (r'.status ≡ finished_row.status)
Reach-final_example =
    Reach-final plain plain finished restarted 1 finished_row to_finished from_finished
      finished_found refl

abbrev admitted_run : Run
admitted_run = record {
  rowid = 1;
  session = "s";
  request_json = "1";
  status = queued;
  input = "hello";
  last_seq = 1;
  content = none;
  error_code = none;
  error_message = none;
  created_at_ms = 100;
  updated_at_ms = 100;
}

admitted_new :
    admit_with_route 100 "s" "1" "hello" enqueue none empty_db ≡ ok (admitted, new admitted_run)
unfolding apply admit_with_route admit_new insert_event
admitted_new = refl

to_finished_again : Reach plain plain admitted finished
to_finished_again =
    then_apply (then_apply initial (start 150 1) tt) (end 200 1 completed (some "hi") none) tt

admitted_once_example :
    (r' : Run) × (r'.rowid ≡ 1)
    × (admit_with_route 500 "s" "1" "hello" reject_if_busy (some "route") finished
        ≡ ok (finished, existing r'))
    × ((changed : String)
        → "hello" ≢ changed
        → admit_with_route 500 "s" "1" changed reject_if_busy (some "route") finished
          ≡ err (protocol "相同 request id 的输入内容不同"))
admitted_once_example =
    admitted_once plain plain 100 500 "s" "1" "hello" enqueue reject_if_busy none (some "route")
      empty_db admitted finished admitted_run initial admitted_new to_finished_again
