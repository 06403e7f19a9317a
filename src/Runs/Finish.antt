-- ===== src/Runs/Finish.antt =====
-- src/storage/mod.rs: the end of a run. `finish` writes the terminal state, `recover` marks what a
-- restart has interrupted, and `reconcile_unknown` resolves such a run by hand.
use dtcoder_test.Prelude.{
  ℕ, ◌+◌, String, Bool, true, false, not, ◌&&◌, ◌||◌, Option, none, some, List, [], ◌∷◌, ltb, ◌==◌,
  if◌then◌else◌, is_some, str_eq, length,
}
use dtcoder_test.Prelude.Int.{ℤ, negsuc, int_eq}
use dtcoder_test.Prelude.Tables.{first_where, update_where, count_where, select_where}
use dtcoder_test.Result.{protocol, Result, ok, err, ◌>>=◌}
use dtcoder_test.Runs.Types.{
  RunStatus, completed, failed, cancelled, unknown_after_restart, terminal, is_active, status_eq,
  Run, status_only, terminal_data, assistant_content, manual_resolution, ToolStatus, prepared,
  orphaned, InteractionRow, AttemptRow, unconsumed, DelegationRow, Db,
}
use Prim.Native.String.{len}
use dtcoder_test.Prelude.Text.{codes, trim, is_empty_text}
use dtcoder_test.Provider.Error.{ProviderErrorKind}
use dtcoder_test.Runs.Rows.{
  is_run, read_run_in, insert_event, set_turn, set_queued, is_child, mark_terminal_in,
}
use dtcoder_test.Runs.Queue.{expect_run}
use dtcoder_test.Runs.Tools.{is_over}
use dtcoder_test.Runs.Interactions.{is_pending}

abbrev pub opt_text_eq : Option String → Option String → Bool
opt_text_eq none none = true
opt_text_eq (some a) (some b) = str_eq a b
opt_text_eq _ _ = false

abbrev pub opt_int_eq : Option ℤ → Option ℤ → Bool
opt_int_eq none none = true
opt_int_eq (some a) (some b) = int_eq a b
opt_int_eq _ _ = false

-- The error of `finish`: a code and a message, or neither.
abbrev pub FinishError : Type 0
FinishError = Option (ℤ × String)

abbrev pub error_code_of : FinishError → Option ℤ
error_code_of none = none
error_code_of (some (code, message)) = some code

abbrev pub error_message_of : FinishError → Option String
error_message_of none = none
error_message_of (some (code, message)) = some message

abbrev pub incomplete_tools : ℕ → Db → ℕ
incomplete_tools id db = count_where (λ t. t.run_id == id && not (is_over t.status)) db.tools

abbrev pub is_started : ToolStatus → Bool
is_started prepared = false
is_started _ = true

-- effect!='read' AND status IN ('running','terminal')
abbrev pub started_side_effects : ℕ → Db → ℕ
started_side_effects id db =
    count_where (λ t. t.run_id == id && not (str_eq t.effect "read") && is_started t.status)
      db.tools

-- The status that is written, in place of the one that was asked for.
abbrev pub settle : ℕ → RunStatus → Db → RunStatus
settle id status db =
    if ltb 0 (incomplete_tools id db)
      || (status_eq status cancelled && ltb 0 (started_side_effects id db))
    then unknown_after_restart
    else status

abbrev pub settle_content : RunStatus → Option String → Option String
settle_content completed content = content
settle_content _ content = none

abbrev pub settle_error : RunStatus → FinishError → FinishError
settle_error unknown_after_restart error = some (negsuc 32001, "工具执行结果未知，禁止自动重放")
settle_error _ error = error

abbrev pub insert_content : ℕ → ℕ → Bool → Option String → Db → Result Db
insert_content now id manual none db = ok db
insert_content now id manual (some content) db =
    insert_event now id "assistant_content" (assistant_content content manual) db

-- ORDER BY rowid DESC LIMIT 1, and its `error_kind`
abbrev pub last_error_kind :
    ℕ → List AttemptRow → Option ProviderErrorKind → Option ProviderErrorKind
last_error_kind id [] found = found
last_error_kind id (a ∷ as') found =
    last_error_kind id as' (if a.run_id == id then a.error_kind else found)

abbrev pub provider_error_kind : ℕ → RunStatus → Db → Option ProviderErrorKind
provider_error_kind id failed db = last_error_kind id db.attempts none
provider_error_kind id _ db = none

-- UPDATE runs SET status, content, error_code, error_message, updated_at_ms WHERE id=?1
abbrev pub end_run : ℕ → ℕ → RunStatus → Option String → FinishError → List Run → List Run
end_run now id status content error = update_where (is_run id) (λ r. record r {
  status = status;
  content = content;
  error_code = error_code_of error;
  error_message = error_message_of error;
  updated_at_ms = now;
})

abbrev pub orphan : ℕ → List InteractionRow → List InteractionRow
orphan id =
    update_where (λ i. i.run_id == id && is_pending i.status)
      (λ i. record i { status = orphaned; revision = i.revision + 1 })

abbrev pub end_rows : ℕ → ℕ → RunStatus → Option String → FinishError → Db → Db
end_rows now id status content error db = record db {
  runs = end_run now id status content error db.runs;
  turns = set_turn id status db.turns;
  queue = set_queued id status db.queue;
}

-- `finish` of a run that is not over, with the settled status, content and error.
unfoldable pub finish_open :
    ℕ → ℕ → RunStatus → Option String → FinishError → Db → Result (Db × Run)
finish_open now id status content error db = do
  db1 ← insert_content now id false content db
  db2 ←
      insert_event now id "terminal"
        (terminal_data status (error_code_of error) (error_message_of error)
          (provider_error_kind id status db))
        db1
  let db3 = end_rows now id status content error db2
  found ← expect_run id (record db3 { interactions = orphan id db3.interactions })
  db4 ← mark_terminal_in now found.1 found.0
  ok (db4, found.1)

-- A run that is over takes the same end again, and no other.
unfoldable pub finish_again : RunStatus → Option String → FinishError → Run → Db → Result (Db × Run)
finish_again status content error current db =
    if status_eq current.status status
      && opt_text_eq current.content content
      && opt_int_eq current.error_code (error_code_of error)
      && opt_text_eq current.error_message (error_message_of error)
    then ok (db, current)
    else err (protocol "终态冲突")

unfoldable pub finish_found :
    ℕ → ℕ → RunStatus → Option String → FinishError → Option Run → Db → Result (Db × Run)
unfolding finish_open finish_again
finish_found now id status content error none db = err (protocol "run 不存在")
finish_found now id status content error (some current) db =
    if terminal current.status
    then finish_again status content error current db
    else (let settled = settle id status db in
        finish_open now id settled (settle_content settled content) (settle_error settled error) db)

unfoldable pub finish : ℕ → ℕ → RunStatus → Option String → FinishError → Db → Result (Db × Run)
unfolding finish_found
finish now id status content error db =
    if terminal status
    then finish_found now id status content error (read_run_in id db) db
    else err (protocol "finish 必须写入终态")

-- One run of the loop of `recover`.
unfoldable pub recover_run : ℕ → ℕ → Db → Result Db
recover_run now id db = do
  db1 ← insert_event now id "terminal" (status_only unknown_after_restart) db
  let db2 = record db1 {
    runs =
        update_where (is_run id)
          (λ r. record r { status = unknown_after_restart; updated_at_ms = now }) db1.runs;
    turns = set_turn id unknown_after_restart db1.turns;
    queue = set_queued id unknown_after_restart db1.queue;
  }
  found ← expect_run id db2
  mark_terminal_in now found.1 found.0

unfoldable pub recover_runs : ℕ → List Run → Db → Result Db
recover_runs now [] db = ok db
recover_runs now (r ∷ rs) db = recover_run now r.rowid db >>= recover_runs now rs

abbrev pub is_unknown_run : Db → ℕ → Bool
is_unknown_run db id =
    is_some (first_where (λ r. is_run id r && status_eq r.status unknown_after_restart) db.runs)

abbrev pub orphan_unknown : Db → Db
orphan_unknown db = record db {
  interactions =
      update_where (λ i. is_pending i.status && is_unknown_run db i.run_id)
        (λ i. record i { status = orphaned }) db.interactions;
}

abbrev pub interrupted : Db → List Run
interrupted db = select_where (λ r. is_active r.status) db.runs

unfoldable pub recover : ℕ → Db → Result (Db × ℕ)
unfolding recover_runs recover_run
recover now db = do
  db1 ← recover_runs now (interrupted db) db
  ok (orphan_unknown db1, length (interrupted db))

abbrev pub is_resolution : RunStatus → Bool
is_resolution completed = true
is_resolution failed = true
is_resolution cancelled = true
is_resolution _ = false

abbrev pub is_missing : Option String → Bool
is_missing none = true
is_missing (some content) = is_empty_text content

-- The error that goes with a resolution.
abbrev pub resolution_error : RunStatus → FinishError
resolution_error failed = some (negsuc 32002, "人工核验为失败")
resolution_error cancelled = some (negsuc 32799, "人工核验为取消")
resolution_error _ = none

abbrev pub is_unconsumed : Option DelegationRow → Bool
is_unconsumed none = true
is_unconsumed (some d) = elim d.result_state [ unconsumed ↦ true | _ ↦ false ]

-- `reconcile_unknown` after its checks; `digest` is the SHA-256 of the evidence.
unfoldable pub reconcile_rows :
    ℕ → ℕ → ℕ → RunStatus → Option String → String → String → Db → Result (Db × Run)
reconcile_rows now id expected status content digest evidence db = do
  let kept = settle_content status content
  db1 ← insert_content now id true kept db
  db2 ←
      insert_event now id "manual_resolution" (manual_resolution status digest evidence expected)
        db1
  found ← expect_run id (end_rows now id status kept (resolution_error status) db2)
  db3 ← mark_terminal_in now found.1 found.0
  ok (db3, found.1)

abbrev pub is_bad_resolution : RunStatus → Option String → String → Bool
is_bad_resolution status content evidence =
    not (is_resolution status)
    || ltb (length (trim (codes evidence))) 16
    || ltb 4096 (len evidence)
    || (status_eq status completed && is_missing content)

unfoldable pub reconcile_found :
    ℕ
    → ℕ
    → String
    → ℕ
    → RunStatus
    → Option String
    → String
    → String
    → Option Run
    → Db
    → Result (Db × Run)
unfolding reconcile_rows
reconcile_found now id session expected status content digest evidence none db =
    err (protocol "run 不存在")
reconcile_found now id session expected status content digest evidence (some run) db =
    if not (
      str_eq run.session session
      && status_eq run.status unknown_after_restart
      && run.last_seq == expected)
    then err (protocol "run owner、状态或事件序号冲突")
    else if is_unconsumed (first_where (is_child id) db.delegations)
    then reconcile_rows now id expected status content digest evidence db
    else err (protocol "已领取的子 Agent 结果不能人工改写")

unfoldable pub reconcile_unknown :
    (String → String)
    → ℕ
    → ℕ
    → String
    → ℕ
    → RunStatus
    → Option String
    → String
    → Db
    → Result (Db × Run)
unfolding reconcile_found
reconcile_unknown sha256 now id session expected status content evidence db =
    if is_bad_resolution status content evidence
    then err (protocol "人工修复需要明确终态、内容和 16-4096 字节证据说明")
    else reconcile_found now id session expected status content (sha256 evidence) evidence
        (read_run_in id db) db
