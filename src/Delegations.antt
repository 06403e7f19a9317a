-- ===== src/Delegations.antt =====
-- src/storage/delegation.rs: runs that a run hands to child agents, their budget, and who may take
-- their results. `now` is the value of `now_ms()`, read once for an operation; `to_json` is
-- serde_json's text of a request id. A budget is a number: the source refuses a negative one as it
-- refuses 0.
pub mod Results
pub mod Bounds
use dtcoder_test.Prelude.{
  ℕ, zero, suc, ◌+◌, ◌-◌, ◌*◌, ◌≤◌, ◌<◌, min, max, ◌≡◌, ◌≢◌, refl, ap, sym, ◌∙◌, ◌⊎◌, inl, inr,
  String, Bool, true, false, not, ◌&&◌, ◌||◌, Option, none, some, List, [], ◌∷◌, ◌++◌, map, arith,
  ltb, leb, ◌==◌, if◌then◌else◌, is_some, str_eq, eq_iff, str_eq_refl, str_eq_ne, Bool-cases,
  Option-cases, length, All, ltb→lt, ltb→le, leb→le, ==_iff, &&-left, &&-right,
}
use dtcoder_test.Prelude.Int.{ℤ, pos, negsuc, int_eq, sub_ℕ}
use dtcoder_test.Prelude.Tables.{
  first_where, update_where, count_where, select_where, count_where-append, first_where-passes,
}
use dtcoder_test.Result.{
  RuntimeError, cancelled as err_cancelled, persistence, protocol, Result, ok, err, ◌>>=◌, ◌>>◌,
  reject_if,
}
use dtcoder_test.Runs.Types.{
  RunStatus, queued, running, waiting_interaction, completed, failed, cancelled,
  unknown_after_restart, terminal, is_active, is_live, status_eq, as_str, Run, Turn, Payload,
  user_message, run_started, status_only, terminal_data, batch_prepared, batch_completed,
  assistant_content, resolved, manual_resolution, attempt_data, delegation_spawned,
  delegation_terminal, approval, other, EventRow, QueuedRow, ToolStatus, prepared, tool_running,
  tool_terminal, ToolRow, InteractionStatus, pending, answered, rejected, orphaned, InteractionRow,
  AttemptStatus, started, attempt_succeeded, attempt_failed, attempt_cancelled, AttemptRow,
  TerminalJson, ResultState, unconsumed, reserved, delivered, DelegationRow, Db, empty_db,
}
use Prim.Native.String.{◌++◌ as text_append}
use dtcoder_test.Prelude.Text.{is_blank}
use dtcoder_test.Runs.Rows.{is_run, read_run_in, next_rowid, no_rows, insert_event, is_child}
use dtcoder_test.Runs.Queue.{new_run, insert_run, enqueue_message}

abbrev pub max_depth : ℕ
max_depth = 2

abbrev pub max_root_spawns : ℕ
max_root_spawns = 8

abbrev pub max_root_active : ℕ
max_root_active = 4

pub record DelegationRequest : Type 0 where
  pub parent_session : String
  pub parent_run : ℕ
  pub child_session : String
  pub spawn_key : String
  pub task : String
  pub tools : List String
  pub permission_mode : String
  pub cwd : String
  pub max_rounds : ℕ
  pub max_tokens : ℕ
  pub max_tool_calls : ℕ
  pub deadline_ms : ℕ

abbrev pub texts_eq : List String → List String → Bool
texts_eq [] [] = true
texts_eq (a ∷ as') (b ∷ bs) = str_eq a b && texts_eq as' bs
texts_eq _ _ = false

abbrev pub is_nil : List String → Bool
is_nil [] = true
is_nil (x ∷ xs) = false

abbrev pub is_invalid : DelegationRequest → Bool
is_invalid q =
    is_blank q.task
    || is_blank q.spawn_key
    || is_nil q.tools
    || q.max_rounds == 0
    || q.max_tokens == 0
    || q.max_tool_calls == 0

-- WHERE parent_run_id=?1 AND spawn_key=?2
abbrev pub is_spawn : ℕ → String → DelegationRow → Bool
is_spawn parent key d = d.parent_run == parent && str_eq d.spawn_key key

-- The parameters that a repeated spawn must repeat.
abbrev pub is_conflict : DelegationRequest → String → DelegationRow → Bool
is_conflict q existing_task d =
    not (str_eq existing_task q.task)
    || not (texts_eq d.tools q.tools)
    || not (d.max_rounds == q.max_rounds)
    || not (d.max_tokens == q.max_tokens)
    || not (d.max_tool_calls == q.max_tool_calls)

abbrev pub repeat_spawn :
    DelegationRequest → DelegationRow → Db → Option Run → Result (Db × DelegationRow)
repeat_spawn q d db none = err no_rows
repeat_spawn q d db (some child) =
    if is_conflict q child.input d then err (protocol "相同 spawn_key 的委派参数冲突") else ok (db, d)

-- The root of the tree that the child joins, and its depth in it.
pub record Place : Type 0 where
  pub root_session : String
  pub root_run : ℕ
  pub depth : ℕ

abbrev pub place_under : Run → Option DelegationRow → Place
place_under parent none = record {
  root_session = parent.session;
  root_run = parent.rowid;
  depth = 1;
}
place_under parent (some d) = record {
  root_session = d.root_session;
  root_run = d.root_run;
  depth = d.depth + 1;
}

abbrev pub in_tree : ℕ → DelegationRow → Bool
in_tree root d = d.root_run == root

-- count(*) and sum(CASE WHEN status IN ('queued','running','waiting_interaction') ...)
abbrev pub total_of : ℕ → List DelegationRow → ℕ
total_of root = count_where (in_tree root)

abbrev pub active_of : ℕ → List DelegationRow → ℕ
active_of root = count_where (λ d. in_tree root d && is_live d.status)

abbrev pub route_of : ℕ → List (ℕ × String) → Option String
route_of id [] = none
route_of id ((run, route) ∷ rs) = if run == id then some route else route_of id rs

abbrev pub new_delegation : ℕ → DelegationRequest → Place → ℕ → Option String → DelegationRow
new_delegation now q place child route = record {
  root_session = place.root_session;
  root_run = place.root_run;
  parent_session = q.parent_session;
  parent_run = q.parent_run;
  spawn_key = q.spawn_key;
  child_session = q.child_session;
  child_run = child;
  depth = place.depth;
  status = queued;
  created_at_ms = now;
  started_at_ms = none;
  finished_at_ms = none;
  tools = q.tools;
  permission_mode = q.permission_mode;
  route_json = route;
  cwd = q.cwd;
  max_rounds = q.max_rounds;
  max_tokens = q.max_tokens;
  max_tool_calls = q.max_tool_calls;
  deadline_ms = q.deadline_ms;
  terminal_json = none;
  result_state = unconsumed;
  reservation_owner = none;
  revision = 0;
  reservation_released_at_ms = none;
  reservation_expires_at_ms = none;
}

abbrev pub session_exists : String → Db → Bool
session_exists session db = is_some (first_where (λ s. str_eq s session) db.sessions)

abbrev pub add_delegation : DelegationRow → Db → Db
add_delegation d db = record db { delegations = db.delegations ++ (d ∷ []) }

-- The statements that insert the child: its session (a PRIMARY KEY), run, turn, route, first event
-- and message, the delegation, and the event of the parent.
unfoldable pub insert_child :
    (String → String) → ℕ → DelegationRequest → Place → Db → Result (Db × DelegationRow)
insert_child to_json now q place db =
    if session_exists q.child_session db
    then err (persistence "UNIQUE constraint failed: sessions.id")
    else do
      let child = next_rowid db.runs
      let route = route_of q.parent_run db.routes
      let d = new_delegation now q place child route
      let db1 =
          insert_run now child q.child_session (to_json (text_append "delegation:" q.child_session))
            q.task route db
      db2 ← insert_event now child "user_message" (user_message q.task) db1
      db3 ←
          insert_event now q.parent_run "delegation_spawned"
            (delegation_spawned q.child_session child place.depth)
            (add_delegation d (enqueue_message q.child_session child q.task db2))
      ok (db3, d)

-- The limits on the tree.
unfoldable pub admit_child :
    (String → String) → ℕ → DelegationRequest → Place → Db → Result (Db × DelegationRow)
admit_child to_json now q place db = do
  reject_if (ltb max_depth place.depth) (protocol "子 Agent 深度上限为 2")
  reject_if
      (leb max_root_spawns (total_of place.root_run db.delegations)
        || leb max_root_active (active_of place.root_run db.delegations))
      (protocol "子 Agent 总量或并发上限已满")
  insert_child to_json now q place db

-- A spawn whose key is new to the parent.
unfoldable pub admit_spawn :
    (String → String) → ℕ → DelegationRequest → Run → Db → Result (Db × DelegationRow)
admit_spawn to_json now q parent db = do
  reject_if (not (is_active parent.status)) (protocol "父 run 状态不允许委派")
  reject_if (leb q.deadline_ms now) (protocol "子 Agent deadline 已过")
  admit_child to_json now q
      (place_under parent (first_where (is_child q.parent_run) db.delegations)) db

unfoldable pub admit_from :
    (String → String)
    → ℕ
    → DelegationRequest
    → Run
    → Option DelegationRow
    → Db
    → Result (Db × DelegationRow)
admit_from to_json now q parent (some d) db = repeat_spawn q d db (read_run_in d.child_run db)
admit_from to_json now q parent none db = admit_spawn to_json now q parent db

unfoldable pub admit_under :
    (String → String) → ℕ → DelegationRequest → Option Run → Db → Result (Db × DelegationRow)
admit_under to_json now q none db = err (protocol "父 run 不存在")
admit_under to_json now q (some parent) db =
    if str_eq parent.session q.parent_session
    then admit_from to_json now q parent
        (first_where (is_spawn q.parent_run q.spawn_key) db.delegations) db
    else err (protocol "父 run 不属于指定 session")

unfoldable pub admit_delegation :
    (String → String) → ℕ → DelegationRequest → Db → Result (Db × DelegationRow)
admit_delegation to_json now q db =
    if is_invalid q
    then err (protocol "子 Agent 参数或预算无效")
    else admit_under to_json now q (read_run_in q.parent_run db) db
