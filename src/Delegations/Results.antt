-- ===== src/Delegations/Results.antt =====
-- src/storage/delegation.rs: the result of a child run is reserved by one owner for 30 seconds, and
-- then delivered or released.
pub mod Life
pub mod Takeover
use dtcoder_test.Prelude.{
  ℕ, zero, suc, ◌+◌, ◌-◌, ◌*◌, ◌≤◌, ◌<◌, min, max, ◌≡◌, ◌≢◌, refl, ap, sym, ◌∙◌, ◌⊎◌, inl, inr,
  String, Bool, true, false, not, ◌&&◌, ◌||◌, Option, none, some, List, [], ◌∷◌, ◌++◌, map, arith,
  ltb, leb, ◌==◌, if◌then◌else◌, is_some, str_eq, eq_iff, str_eq_refl, str_eq_ne, Bool-cases,
  Option-cases, length, All, ltb→lt, ltb→le, leb→le, ==_iff, &&-left, &&-right,
}
use dtcoder_test.Prelude.Int.{ℤ, pos, negsuc, int_eq, sub_ℕ}
use dtcoder_test.Prelude.Tables.{
  first_where, update_where, count_where, select_where, count_where-append, first_where-passes,
}
use dtcoder_test.Result.{
  RuntimeError, cancelled as err_cancelled, persistence, protocol, Result, ok, err, ◌>>=◌, ◌>>◌,
  reject_if,
}
use dtcoder_test.Runs.Types.{
  RunStatus, queued, running, waiting_interaction, completed, failed, cancelled,
  unknown_after_restart, terminal, is_active, is_live, status_eq, as_str, Run, Turn, Payload,
  user_message, run_started, status_only, terminal_data, batch_prepared, batch_completed,
  assistant_content, resolved, manual_resolution, attempt_data, delegation_spawned,
  delegation_terminal, approval, other, EventRow, QueuedRow, ToolStatus, prepared, tool_running,
  tool_terminal, ToolRow, InteractionStatus, pending, answered, rejected, orphaned, InteractionRow,
  AttemptStatus, started, attempt_succeeded, attempt_failed, attempt_cancelled, AttemptRow,
  TerminalJson, ResultState, unconsumed, reserved, delivered, DelegationRow, Db, empty_db,
}
use dtcoder_test.Runs.Rows.{is_child}

abbrev pub set_delegation : ℕ → (DelegationRow → DelegationRow) → Db → Db
set_delegation child f db = record db {
  delegations = update_where (is_child child) f db.delegations;
}

abbrev pub owned_by : String → DelegationRow → Bool
owned_by owner d = elim d.reservation_owner [ none ↦ false | some o ↦ str_eq o owner ]

-- `reservation_expires_at_ms.is_some_and(|expires| expires > now_ms())`
abbrev pub expires_after : ℕ → DelegationRow → Bool
expires_after now d = elim d.reservation_expires_at_ms [
  | none ↦ false
  | some expires ↦ ltb now expires
]

-- `reservation_expires_at_ms.is_some_and(|expires| expires <= now_ms())`
abbrev pub expired_at : ℕ → DelegationRow → Bool
expired_at now d = elim d.reservation_expires_at_ms [
  | none ↦ false
  | some expires ↦ leb expires now
]

abbrev pub is_delivered : ResultState → Bool
is_delivered delivered = true
is_delivered _ = false

abbrev pub is_reserved : ResultState → Bool
is_reserved reserved = true
is_reserved _ = false

abbrev pub is_free : ResultState → Bool
is_free unconsumed = true
is_free _ = false

-- The UPDATE that gives up an expired reservation.
abbrev pub expire_row : ℕ → DelegationRow → DelegationRow
expire_row now d = record d {
  result_state = unconsumed;
  reservation_owner = none;
  reservation_expires_at_ms = none;
  reservation_released_at_ms = some now;
  revision = d.revision + 1;
}

abbrev pub reserve_row : ℕ → String → DelegationRow → DelegationRow
reserve_row now owner d = record d {
  result_state = reserved;
  reservation_owner = some owner;
  reservation_expires_at_ms = some (now + 30000);
  revision = d.revision + 1;
}

-- `reserve_delegation_result` for the row that was read: what it does to the row, or why not.
unfoldable pub reserve_found :
    ℕ → String → ℕ → DelegationRow → Result (DelegationRow → DelegationRow)
reserve_found now owner revision d =
    if owned_by owner d
      && (is_delivered d.result_state || (is_reserved d.result_state && expires_after now d))
    then ok (λ x. x)
    else if not (terminal d.status) || not (d.revision == revision)
    then err (protocol "结果尚未终态或 revision 冲突")
    else if is_reserved d.result_state && expired_at now d
    then ok (λ x. reserve_row now owner (expire_row now x))
    else if is_free d.result_state
    then ok (reserve_row now owner)
    else err (protocol "结果已由其他 owner 领取")

abbrev pub is_empty_owner : String → Bool
is_empty_owner owner = str_eq owner ""

abbrev pub reserve_read : ℕ → ℕ → String → ℕ → Option DelegationRow → Db → Result Db
reserve_read now child owner revision none db = err (protocol "子 Agent 不存在")
reserve_read now child owner revision (some d) db =
    if is_empty_owner owner
    then err (protocol "reservation owner 不能为空")
    else reserve_found now owner revision d >>= (λ f. ok (set_delegation child f db))

unfoldable pub reserve_delegation_result : ℕ → ℕ → String → ℕ → Db → Result Db
reserve_delegation_result now child owner revision db =
    reserve_read now child owner revision (first_where (is_child child) db.delegations) db

-- The `target` of `transition_result`.
pub data Target : Type 0 where
  release deliver : Target

abbrev pub is_deliver : Target → Bool
is_deliver release = false
is_deliver deliver = true

abbrev pub transition_row : ℕ → Target → DelegationRow → DelegationRow
transition_row now deliver d = record d {
  result_state = delivered;
  reservation_expires_at_ms = none;
  revision = d.revision + 1;
}
transition_row now release d = record d {
  result_state = unconsumed;
  reservation_owner = none;
  reservation_expires_at_ms = none;
  reservation_released_at_ms = some now;
  revision = d.revision + 1;
}

unfoldable pub transition_found :
    ℕ → String → ℕ → Target → DelegationRow → Result (DelegationRow → DelegationRow)
transition_found now owner revision target d =
    if is_deliver target && is_delivered d.result_state && owned_by owner d
    then ok (λ x. x)
    else if not (is_reserved d.result_state)
        || not (owned_by owner d)
        || not (d.revision == revision)
        || (is_deliver target && expired_at now d)
    then err (protocol "结果 reservation owner/revision 冲突")
    else ok (transition_row now target)

abbrev pub transition_read : ℕ → ℕ → String → ℕ → Target → Option DelegationRow → Db → Result Db
transition_read now child owner revision target none db = err (protocol "子 Agent 不存在")
transition_read now child owner revision target (some d) db =
    transition_found now owner revision target d >>= (λ f. ok (set_delegation child f db))

-- `release_delegation_result` and `deliver_delegation_result`
unfoldable pub transition_result : ℕ → ℕ → String → ℕ → Target → Db → Result Db
transition_result now child owner revision target db =
    transition_read now child owner revision target (first_where (is_child child) db.delegations) db
