-- ===== src/Runs/Tools.antt =====
-- src/storage/mod.rs: the calls of tools of a run, from their preparation to their receipts. A tool
-- is called at most once for a receipt.
use dtcoder_test.Prelude.{
  ℕ, ◌+◌, String, Bool, true, false, not, ◌&&◌, Option, none, some, List, [], ◌∷◌, ◌++◌, map, ltb,
  ◌==◌, if◌then◌else◌, is_some, str_eq, length,
}
use dtcoder_test.Prelude.Tables.{first_where, update_where, count_where}
use dtcoder_test.Result.{persistence, protocol, Result, ok, err, ◌>>=◌, ◌>>◌, reject_if}
use dtcoder_test.Runs.Types.{
  Run, running, status_eq, batch_prepared, batch_completed, ToolStatus, prepared, tool_running,
  tool_terminal, ToolRow, DelegationRow, Db,
}
use dtcoder_test.Runs.Rows.{read_run_in, no_rows, insert_event, is_child}

-- A call that is to be prepared: its `ToolCall`'s id and name, the effect, the digest of its
-- arguments, and whether it may be replayed.
pub record PreparedCall : Type 0 where
  pub call_id : String
  pub name : String
  pub effect : String
  pub digest : String
  pub replay : Bool

-- WHERE run_id=?1 AND round=?2 AND call_id=?3
abbrev pub is_call : ℕ → ℕ → String → ToolRow → Bool
is_call id round call t = t.run_id == id && t.round == round && str_eq t.call_id call

abbrev pub is_call_in : ToolStatus → ℕ → ℕ → String → ToolRow → Bool
is_call_in prepared id round call t = elim t.status [
  | prepared ↦ is_call id round call t
  | _ ↦ false
]
is_call_in tool_running id round call t = elim t.status [
  | tool_running ↦ is_call id round call t
  | _ ↦ false
]
is_call_in tool_terminal id round call t = elim t.status [
  | tool_terminal ↦ is_call id round call t
  | _ ↦ false
]

abbrev pub prepared_row : ℕ → ℕ → PreparedCall → ToolRow
prepared_row id round c = record {
  run_id = id;
  round = round;
  call_id = c.call_id;
  name = c.name;
  status = prepared;
  effect = c.effect;
  argument_digest = c.digest;
  started_at_ms = none;
  finished_at_ms = none;
  outcome = none;
  artifact_ref = none;
  safe_to_replay = c.replay;
  receipt = none;
}

-- One INSERT INTO tool_executions: UNIQUE(run_id, round, call_id).
abbrev pub insert_call : ℕ → ℕ → PreparedCall → List ToolRow → Result (List ToolRow)
insert_call id round c ts =
    if is_some (first_where (is_call id round c.call_id) ts)
    then err (persistence "UNIQUE constraint failed: tool_executions")
    else ok (ts ++ (prepared_row id round c ∷ []))

unfoldable pub insert_calls : ℕ → ℕ → List PreparedCall → List ToolRow → Result (List ToolRow)
insert_calls id round [] ts = ok ts
insert_calls id round (c ∷ cs) ts = insert_call id round c ts >>= insert_calls id round cs

abbrev pub calls_of : ℕ → List ToolRow → ℕ
calls_of id ts = count_where (λ t. t.run_id == id) ts

-- The check of `max_tool_calls` of a child run; a run that is nobody's child has no budget.
abbrev pub check_tool_budget : ℕ → ℕ → Option DelegationRow → List ToolRow → Result (Unit {0})
check_tool_budget id n none ts = ok tt
check_tool_budget id n (some d) ts =
    reject_if (ltb d.max_tool_calls (calls_of id ts + n)) (protocol "子 Agent 工具调用预算已耗尽")

abbrev pub call_ids : List PreparedCall → List String
call_ids cs = map (λ c. c.call_id) cs

unfoldable pub prepare_running : ℕ → ℕ → ℕ → List PreparedCall → Db → Result Db
unfolding insert_calls
prepare_running now id round calls db = do
  check_tool_budget id (length calls) (first_where (is_child id) db.delegations) db.tools
  tools ← insert_calls id round calls db.tools
  insert_event now id "tool_batch_prepared" (batch_prepared round (call_ids calls))
      (record db { tools = tools })

abbrev pub prepare_read : ℕ → ℕ → ℕ → List PreparedCall → Db → Option Run → Result Db
prepare_read now id round calls db none = err no_rows
prepare_read now id round calls db (some r) =
    if status_eq r.status running
    then prepare_running now id round calls db
    else err (protocol "run 不在执行状态")

unfoldable pub prepare_tool_batch : ℕ → ℕ → ℕ → List PreparedCall → Db → Result Db
unfolding prepare_running
prepare_tool_batch now id round calls db = prepare_read now id round calls db (read_run_in id db)

unfoldable pub start_tool : ℕ → ℕ → ℕ → String → Db → Result Db
start_tool now id round call db =
    if count_where (is_call_in prepared id round call) db.tools == 1
    then ok (record db {
      tools =
          update_where (is_call_in prepared id round call)
            (λ t. record t { status = tool_running; started_at_ms = some now }) db.tools;
    })
    else err (protocol "工具不是 prepared 状态")

unfoldable pub finish_tool : ℕ → ℕ → ℕ → String → String → Option String → String → Db → Result Db
finish_tool now id round call outcome artifact receipt db =
    if count_where (is_call_in tool_running id round call) db.tools == 1
    then ok (record db {
      tools =
          update_where (is_call_in tool_running id round call)
            (λ t. record t {
              status = tool_terminal;
              finished_at_ms = some now;
              outcome = some outcome;
              artifact_ref = artifact;
              receipt = some receipt;
            })
            db.tools;
    })
    else err (protocol "工具不是 running 状态")

abbrev pub is_over : ToolStatus → Bool
is_over tool_terminal = true
is_over _ = false

abbrev pub incomplete_in_round : ℕ → ℕ → Db → ℕ
incomplete_in_round id round db =
    count_where (λ t. t.run_id == id && t.round == round && not (is_over t.status)) db.tools

unfoldable pub finish_tool_batch : ℕ → ℕ → ℕ → Db → Result Db
finish_tool_batch now id round db =
    if incomplete_in_round id round db == 0
    then insert_event now id "tool_batch_completed" (batch_completed round) db
    else err (protocol "工具批次尚未全部完成")
