-- ===== src/Examples/Delegations.antt =====
-- The theorems on src/storage/delegation.rs at a run that delegates once.
use dtcoder_test.Prelude.{
  ◌≡◌, ◌≢◌, refl, String, true, false, none, some, List, [], ◌∷◌, arith, eq_iff,
}
use dtcoder_test.Prelude.Text.{is_blank}
use dtcoder_test.Result.{ok}
use dtcoder_test.Runs.Types.{completed, reserved, delivered, DelegationRow, Db, empty_db}
use dtcoder_test.Runs.Rows.{insert_event}
use dtcoder_test.Runs.Queue.{enqueue, admit_with_route, admit_new, try_start_queued, started_rows}
use dtcoder_test.Runs.Tools.{PreparedCall, insert_calls, prepare_running, prepare_tool_batch}
use dtcoder_test.Runs.Laws.Tools.{Prepared, prepare_tool_batch-Prepared}
use dtcoder_test.Runs.Ops.{admit, start, delegate, prepare_tools, apply}
use dtcoder_test.Delegations.{
  DelegationRequest, new_delegation, admit_delegation, admit_under, admit_from, admit_spawn,
  admit_child, insert_child,
}
use dtcoder_test.Delegations.Bounds.{IsBounded, admit_delegation-IsBounded}
use dtcoder_test.Delegations.Results.{release, deliver}
use dtcoder_test.Delegations.Results.Takeover.{takeover}
use dtcoder_test.Delegations.Results.Life.{
  Call, reserve_call, transition_call, perform, perform_all, IsWellFormed, perform_all-IsWellFormed,
  delivered_final, reserved_exclusive,
}

abbrev plain : String → String
plain text = text

abbrev running_db : Db
running_db =
    apply plain plain (start 150 1)
      (apply plain plain (admit 100 "s" "1" "hello" enqueue none) empty_db)

abbrev request : DelegationRequest
request = record {
  parent_session = "s";
  parent_run = 1;
  child_session = "child";
  spawn_key = "k";
  task = "read the file";
  tools = "read" ∷ [];
  permission_mode = "default";
  cwd = "/";
  max_rounds = 3;
  max_tokens = 1000;
  max_tool_calls = 5;
  deadline_ms = 9000;
}

abbrev child : DelegationRow
child = new_delegation 160 request (record { root_session = "s"; root_run = 1; depth = 1 }) 2 none

abbrev delegated : Db
delegated = apply plain plain (delegate 160 request) running_db

delegated-child : admit_delegation plain 160 request running_db ≡ ok (delegated, child)
unfolding apply admit_with_route admit_new insert_event try_start_queued started_rows
    admit_delegation admit_under admit_from admit_spawn admit_child insert_child is_blank
delegated-child = refl

running-IsBounded : IsBounded running_db.delegations
unfolding apply admit_with_route admit_new insert_event try_start_queued started_rows
running-IsBounded = record { total = λ root. omega arith; active = λ root. omega arith; deep = tt }

admit_delegation-IsBounded_example : IsBounded delegated.delegations
admit_delegation-IsBounded_example =
    admit_delegation-IsBounded plain 160 request running_db delegated child running-IsBounded
      delegated-child

abbrev finished_child : DelegationRow
finished_child = record child { status = completed }

abbrev calls : List Call
calls =
    reserve_call 200 "a" 0
    ∷ reserve_call 210 "b" 1
    ∷ transition_call 220 "a" 1 deliver
    ∷ reserve_call 230 "b" 2
    ∷ []

perform_all-IsWellFormed_example : IsWellFormed (perform_all calls finished_child)
perform_all-IsWellFormed_example = perform_all-IsWellFormed calls finished_child refl

abbrev delivered_child : DelegationRow
delivered_child = record finished_child {
  result_state = delivered;
  reservation_owner = some "a";
  revision = 2;
}

delivered_final_example : perform_all calls delivered_child ≡ delivered_child
delivered_final_example = delivered_final calls delivered_child refl

abbrev reserved_child : DelegationRow
reserved_child = record finished_child {
  result_state = reserved;
  reservation_owner = some "a";
  reservation_expires_at_ms = some 30200;
  revision = 1;
}

abbrev foreign_calls : List Call
foreign_calls = reserve_call 210 "b" 1 ∷ transition_call 220 "c" 1 release ∷ []

a_not_b : ◌≢◌ {A = String} "a" "b"
a_not_b h = let same : false ≡ true = (eq_iff "a" "b").1 h in ground arith

a_not_c : ◌≢◌ {A = String} "a" "c"
a_not_c h = let same : false ≡ true = (eq_iff "a" "c").1 h in ground arith

reserved_exclusive_example : perform_all foreign_calls reserved_child ≡ reserved_child
reserved_exclusive_example =
    reserved_exclusive foreign_calls "a" 30200 reserved_child refl refl refl
      ((a_not_b, omega arith), ((a_not_c, omega arith), tt))

b_not_c : ◌≢◌ {A = String} "b" "c"
b_not_c h = let same : false ≡ true = (eq_iff "b" "c").1 h in ground arith

b_not_a : ◌≢◌ {A = String} "b" "a"
b_not_a h = let same : false ≡ true = (eq_iff "b" "a").1 h in ground arith

-- The old owner and a third one try to move the result of "b".
abbrev rivals : List Call
rivals = transition_call 30300 "a" 3 deliver ∷ reserve_call 40000 "c" 3 ∷ []

takeover_example :
    let taken = perform_all (reserve_call 30200 "b" 1 ∷ rivals) reserved_child in
    let after = perform (transition_call 60000 "b" 3 deliver) taken in
    let contested = perform (reserve_call 60200 "c" 3) taken in
    (after.result_state ≡ delivered)
    × (after.revision ≡ 4)
    × (contested.reservation_owner ≡ some "c")
takeover_example =
    takeover 30200 60000 60200 1 30200 "a" "b" "c" reserved_child rivals refl refl refl refl refl
      (omega arith) a_not_b b_not_c ((b_not_a, omega arith), ((b_not_c, omega arith), tt))

-- The child, started, prepares a batch of two calls.
abbrev child_running : Db
child_running = apply plain plain (start 170 2) delegated

abbrev batch : List PreparedCall
batch =
    record { call_id = "a"; name = "read"; effect = "read"; digest = "d1"; replay = true }
    ∷ record { call_id = "b"; name = "read"; effect = "read"; digest = "d2"; replay = true }
    ∷ []

abbrev child_prepared : Db
child_prepared = apply plain plain (prepare_tools 180 2 1 batch) child_running

batch_ok : prepare_tool_batch 180 2 1 batch child_running ≡ ok child_prepared
unfolding apply admit_with_route admit_new insert_event try_start_queued started_rows
    admit_delegation admit_under admit_from admit_spawn admit_child insert_child is_blank
    prepare_tool_batch prepare_running insert_calls
batch_ok = refl

prepare_tool_batch-Prepared_example : Prepared 2 2 child_running child_prepared
prepare_tool_batch-Prepared_example =
    prepare_tool_batch-Prepared 180 2 1 batch child_running child_prepared batch_ok
