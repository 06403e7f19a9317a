-- ===== src/Runs/Attempts.antt =====
-- src/storage/mod.rs: the attempts of a run at its providers, each started once and ended once.
use dtcoder_test.Prelude.{
  ℕ, String, Bool, true, false, not, ◌&&◌, Option, none, some, [], ◌∷◌, ◌++◌, ◌==◌, if◌then◌else◌,
  is_some, str_eq,
}
use dtcoder_test.Prelude.Tables.{first_where, update_where}
use dtcoder_test.Result.{persistence, protocol, Result, ok, err}
use dtcoder_test.Runs.Types.{
  attempt_data, AttemptStatus, started, attempt_succeeded, attempt_failed, attempt_cancelled,
  AttemptRow, Db,
}
use dtcoder_test.Provider.Error.{
  connect, first_event, stream_idle, overall, ProviderErrorKind, auth, access_denied, rate_limit,
  quota_exceeded, invalid_request, context_overflow, content_policy, timeout, transport, server,
  protocol as protocol_error, empty_completion, reasoning_only, output_truncated,
  cancelled as request_cancelled,
}
use dtcoder_test.Runs.Rows.{no_rows, insert_event}

-- The `PartialEq` of `ProviderErrorKind`, by a number for each kind.
abbrev pub kind_number : ProviderErrorKind → ℕ
kind_number auth = 0
kind_number access_denied = 1
kind_number rate_limit = 2
kind_number quota_exceeded = 3
kind_number invalid_request = 4
kind_number context_overflow = 5
kind_number content_policy = 6
kind_number (timeout connect) = 7
kind_number (timeout first_event) = 8
kind_number (timeout stream_idle) = 9
kind_number (timeout overall) = 10
kind_number transport = 11
kind_number server = 12
kind_number protocol_error = 13
kind_number empty_completion = 14
kind_number reasoning_only = 15
kind_number output_truncated = 16
kind_number request_cancelled = 17

abbrev pub opt_kind_eq : Option ProviderErrorKind → Option ProviderErrorKind → Bool
opt_kind_eq none none = true
opt_kind_eq (some a) (some b) = kind_number a == kind_number b
opt_kind_eq _ _ = false

abbrev pub attempt_status_eq : AttemptStatus → AttemptStatus → Bool
attempt_status_eq started started = true
attempt_status_eq attempt_succeeded attempt_succeeded = true
attempt_status_eq attempt_failed attempt_failed = true
attempt_status_eq attempt_cancelled attempt_cancelled = true
attempt_status_eq _ _ = false

abbrev pub is_attempt : String → AttemptRow → Bool
is_attempt id a = str_eq a.attempt_id id

unfoldable pub start_provider_attempt : ℕ → AttemptRow → Db → Result Db
start_provider_attempt now a db =
    if not (attempt_status_eq a.status started)
    then err (protocol "attempt 初始状态必须为 started")
    else if is_some (first_where (is_attempt a.attempt_id) db.attempts)
    then err (persistence "UNIQUE constraint failed: provider_attempts.attempt_id")
    else insert_event now a.run_id "provider_attempt_started" (attempt_data a.attempt_id)
        (record db { attempts = db.attempts ++ (a ∷ []) })

-- Equality of the JSON of two attempts.
abbrev pub same_attempt : AttemptRow → AttemptRow → Bool
same_attempt a b =
    str_eq a.attempt_id b.attempt_id
    && a.run_id == b.run_id
    && a.round == b.round
    && a.candidate_index == b.candidate_index
    && attempt_status_eq a.status b.status
    && opt_kind_eq a.error_kind b.error_kind
    && str_eq a.rest b.rest

abbrev pub same_owner : AttemptRow → AttemptRow → Bool
same_owner a b =
    a.run_id == b.run_id && a.round == b.round && a.candidate_index == b.candidate_index

abbrev pub set_attempt : AttemptRow → Db → Db
set_attempt a db = record db {
  attempts =
      update_where (λ x. is_attempt a.attempt_id x && attempt_status_eq x.status started) (λ x. a)
        db.attempts;
}

abbrev pub finish_attempt_found : ℕ → AttemptRow → Option AttemptRow → Db → Result Db
finish_attempt_found now a none db = err no_rows
finish_attempt_found now a (some previous) db =
    if not (attempt_status_eq previous.status started)
    then (if same_attempt previous a then ok db else err (protocol "attempt 终态冲突"))
    else if not (same_owner previous a)
    then err (protocol "attempt owner 冲突")
    else insert_event now a.run_id "provider_attempt_terminal" (attempt_data a.attempt_id)
        (set_attempt a db)

unfoldable pub finish_provider_attempt : ℕ → AttemptRow → Db → Result Db
finish_provider_attempt now a db =
    if attempt_status_eq a.status started
    then err (protocol "attempt 终态无效")
    else finish_attempt_found now a (first_where (is_attempt a.attempt_id) db.attempts) db
