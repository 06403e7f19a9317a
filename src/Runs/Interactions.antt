-- ===== src/Runs/Interactions.antt =====
-- src/storage/mod.rs: events appended to a run, and the questions (interactions) that hold it up
-- until they are answered.
use dtcoder_test.Prelude.{
  ℕ, ◌+◌, String, Bool, true, false, not, ◌&&◌, Option, none, some, List, [], ◌∷◌, ◌++◌, ◌==◌,
  if◌then◌else◌, is_some, str_eq,
}
use dtcoder_test.Prelude.Tables.{first_where, update_where, count_where}
use dtcoder_test.Result.{persistence, protocol, Result, ok, err, ◌>>=◌, ◌>>◌, reject_if}
use dtcoder_test.Runs.Types.{
  running, waiting_interaction, status_eq, Run, Payload, resolved, approval, InteractionStatus,
  pending, answered, rejected, InteractionRow, Db,
}
use dtcoder_test.Runs.Rows.{is_run, read_run_in, insert_event}

abbrev pub is_interaction : String → InteractionRow → Bool
is_interaction id i = str_eq i.id id

abbrev pub is_pending : InteractionStatus → Bool
is_pending pending = true
is_pending _ = false

-- UPDATE runs SET status='waiting_interaction' WHERE id=?1
abbrev pub set_waiting : ℕ → List Run → List Run
set_waiting id = update_where (is_run id) (λ r. record r { status = waiting_interaction })

-- The INSERT INTO interactions (its id is a PRIMARY KEY) and the UPDATE behind it.
abbrev pub ask : ℕ → String → String → Db → Result Db
ask id question prompt db =
    if is_some (first_where (is_interaction question) db.interactions)
    then err (persistence "UNIQUE constraint failed: interactions.id")
    else ok (record db {
      interactions =
          db.interactions
          ++ (record {
            id = question;
            run_id = id;
            status = pending;
            prompt = prompt;
            response = none;
            revision = 0;
          }
              ∷ []);
      runs = set_waiting id db.runs;
    })

abbrev pub ask_if : ℕ → String → Payload → Db → Result Db
ask_if id event (approval none prompt) db =
    if str_eq event "approval_required" then err (protocol "approval id 缺失") else ok db
ask_if id event (approval (some question) prompt) db =
    if str_eq event "approval_required" then ask id question prompt db else ok db
ask_if id event _ db = ok db

unfoldable pub append_event : ℕ → ℕ → String → Payload → Db → Result Db
append_event now id event payload db =
    insert_event now id event payload db >>= ask_if id event payload

abbrev pub answer_status : Bool → InteractionStatus
answer_status true = answered
answer_status false = rejected

abbrev pub bool_eq : Bool → Bool → Bool
bool_eq true b = b
bool_eq false b = not b

abbrev pub is_same_answer : InteractionStatus → Option Bool → Bool → Bool
is_same_answer answered (some b) approved = bool_eq b approved
is_same_answer rejected (some b) approved = bool_eq b approved
is_same_answer _ _ approved = false

-- UPDATE interactions SET status, response_json, revision=revision+1 WHERE id=?1 AND status='pending'
abbrev pub set_answer : String → Bool → List InteractionRow → List InteractionRow
set_answer id approved =
    update_where (λ i. is_interaction id i && is_pending i.status)
      (λ i. record i {
        status = answer_status approved;
        response = some approved;
        revision = i.revision + 1;
      })

abbrev pub pending_of : ℕ → List InteractionRow → ℕ
pending_of run is = count_where (λ i. i.run_id == run && is_pending i.status) is

-- UPDATE runs SET status='running' WHERE id=?1 AND status='waiting_interaction'
abbrev pub resume : ℕ → List Run → List Run
resume id =
    update_where (λ r. is_run id r && status_eq r.status waiting_interaction)
      (λ r. record r { status = running })

abbrev pub answer_rows : String → ℕ → Bool → Db → Db
answer_rows id run approved db =
    let answers = set_answer id approved db.interactions in
    record db {
      interactions = answers;
      runs = if pending_of run answers == 0 then resume run db.runs else db.runs;
    }

-- `claim_interaction` of a question that is still open.
unfoldable pub claim_pending : ℕ → String → ℕ → ℕ → Bool → InteractionRow → Run → Db → Result Db
claim_pending now id run revision approved current owner db = do
  reject_if (not (current.revision == revision)) (protocol "interaction revision 冲突")
  reject_if (not (status_eq owner.status waiting_interaction)) (protocol "interaction 的 run 已不在等待")
  insert_event now run "interaction_resolved" (resolved id approved (revision + 1))
      (answer_rows id run approved db)

-- `read_interaction_in` joins the row with its run.
abbrev pub interaction_owner : InteractionRow → Db → Option Run
interaction_owner i db = read_run_in i.run_id db

unfoldable pub claim_owned :
    ℕ → String → String → ℕ → ℕ → Bool → InteractionRow → Run → Db → Result Db
claim_owned now id session run revision approved current owner db =
    if not (str_eq owner.session session && current.run_id == run)
    then err (protocol "interaction owner 不匹配")
    else if is_pending current.status
    then claim_pending now id run revision approved current owner db
    else if is_same_answer current.status current.response approved
    then ok db
    else err (protocol "interaction 已解决或孤立，答案冲突")

unfoldable pub claim_found :
    ℕ → String → String → ℕ → ℕ → Bool → Option InteractionRow → Db → Result Db
claim_found now id session run revision approved none db = err (protocol "interaction 不存在")
claim_found now id session run revision approved (some current) db =
    elim (interaction_owner current db) [
      | none ↦ err (protocol "interaction 不存在")
      | some owner ↦ claim_owned now id session run revision approved current owner db
    ]

-- `claim_interaction(id, session_id, run_id, revision, approved)`; the row that the source returns
-- is the interaction's row of the new state.
unfoldable pub claim_interaction : ℕ → String → String → ℕ → ℕ → Bool → Db → Result Db
unfolding claim_found claim_owned claim_pending
claim_interaction now id session run revision approved db =
    claim_found now id session run revision approved
      (first_where (is_interaction id) db.interactions) db
