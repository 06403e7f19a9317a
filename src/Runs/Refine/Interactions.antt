-- ===== src/Runs/Refine/Interactions.antt =====
-- Questions and answers follow the step relation.
use dtcoder_test.Prelude.{
  ℕ, ◌≡◌, refl, inl, inr, String, Bool, true, false, not, ◌&&◌, Option, none, some, List, [], ◌∷◌,
  arith, ◌==◌, if◌then◌else◌, is_some, str_eq, Option-cases, All, &&-right,
}
use dtcoder_test.Prelude.Tables.{first_where}
use dtcoder_test.Result.{protocol, Result, ok, err}
use dtcoder_test.Runs.Types.{
  RunStatus, queued, running, waiting_interaction, completed, failed, cancelled,
  unknown_after_restart, is_active, status_eq, Run, Payload, approval, InteractionRow, Db,
}
use dtcoder_test.Result.{Ensures, Ensures-bind, Ensures-if, Ensures-reject}
use dtcoder_test.Runs.Changes.{
  view, Edge, stay, wait, resume as resume_edge, Allowed, modifies, PathTo, here, next, IsSound,
}
use dtcoder_test.Runs.Refine.{
  Tracks, insert_event-Tracks, Allowed-at, From, insert_event-From, Tracks-start,
}
use dtcoder_test.Runs.Rows.{is_run, read_run_in, no_rows, insert_event}
use dtcoder_test.Runs.Interactions.{
  is_interaction, is_pending, ask, ask_if, append_event, set_answer, pending_of, resume,
  answer_rows, claim_pending, claim_owned, claim_found, claim_interaction, is_same_answer,
  interaction_owner,
}

-- Whether `append_event` puts the run into `waiting_interaction`.
abbrev pub is_question : String → Payload → Bool
is_question event (approval (some question) prompt) = str_eq event "approval_required"
is_question event _ = false

wait-Allowed :
    (x : Run) → is_active x.status ≡ true → Allowed x (record x { status = waiting_interaction })
wait-Allowed x active = record {
  same_id = refl;
  same_session = refl;
  same_seq = refl;
  same_request = refl;
  same_input = refl;
  edge = edge_from x.status active;
  no_new_writer = λ h. active;
}
  where
    edge_from : (s : RunStatus) → is_active s ≡ true → Edge s waiting_interaction
    edge_from running a = wait
    edge_from waiting_interaction a = stay
    edge_from queued a = absurd (cc)
    edge_from completed a = absurd (cc)
    edge_from failed a = absurd (cc)
    edge_from cancelled a = absurd (cc)
    edge_from unknown_after_restart a = absurd (cc)

ask-From :
    (id : ℕ) (question prompt : String) (r : Run) (db0 db : Db)
    → IsSound (view db0)
    → is_active r.status ≡ true
    → Tracks id r db0 db
    → Ensures (From db0) (ask id question prompt db)
ask-From id question prompt r db0 db sound active t =
    Ensures-if (From db0) (is_some (first_where (is_interaction question) db.interactions)) _ _
      (λ e. tt)
      (λ e. next t.path (
        modifies (is_run id) _ (
          Allowed-at id r _ (is_run id) db0 db sound t (λ x h. h)
            (λ x same. wait-Allowed x (rw same active)))))

ask_if-From :
    (id : ℕ) (event : String) (payload : Payload) (r : Run) (db0 db : Db)
    → IsSound (view db0)
    → (is_question event payload ≡ true → is_active r.status ≡ true)
    → Tracks id r db0 db
    → Ensures (From db0) (ask_if id event payload db)
ask_if-From id event (approval none prompt) r db0 db sound active t =
    Ensures-if (From db0) (str_eq event "approval_required") _ _ (λ e. tt) (λ e. t.path)
ask_if-From id event (approval (some question) prompt) r db0 db sound active t =
    Ensures-if (From db0) (str_eq event "approval_required") _ _
      (λ e. ask-From id question prompt r db0 db sound (active e) t) (λ e. t.path)
ask_if-From id event _ r db0 db sound active t = t.path

no_run-event :
    (now id : ℕ) (event : String) (payload : Payload) (db : Db)
    → read_run_in id db ≡ none
    → insert_event now id event payload db ≡ err no_rows
unfolding insert_event
no_run-event now id event payload db e = rw e refl

append_found-From :
    (now id : ℕ) (event : String) (payload : Payload) (db : Db) (r : Run)
    → IsSound (view db)
    → read_run_in id db ≡ some r
    → (is_question event payload ≡ true → is_active r.status ≡ true)
    → Ensures (From db) (append_event now id event payload db)
unfolding append_event
append_found-From now id event payload db r sound found active =
    Ensures-bind (Tracks id r db) (From db) (insert_event now id event payload db)
      (ask_if id event payload)
      (insert_event-Tracks now id event payload id r db db (Tracks-start id r db found))
      (λ db1 t. ask_if-From id event payload r db db1 sound active t)

-- A question that is asked by a run that executes, or is held up already, follows the relation.
pub append_event-From :
    (now id : ℕ) (event : String) (payload : Payload) (db : Db)
    → IsSound (view db)
    → ((r : Run)
        → read_run_in id db ≡ some r
        → is_question event payload ≡ true
        → is_active r.status ≡ true)
    → Ensures (λ db'. PathTo (view db) (view db')) (append_event now id event payload db)
append_event-From now id event payload db sound active = elim (Option-cases (read_run_in id db)) [
  | inl e ↦ unfold append_event in (rw (no_run-event now id event payload db e) tt)
  | inr (r, e) ↦ append_found-From now id event payload db r sound e (active r e)
]

resume-Allowed :
    (id : ℕ) (rs : List Run)
    → All
        (λ r.
          (is_run id r && status_eq r.status waiting_interaction) ≡ true
          → Allowed r (record r { status = running }))
        rs
resume-Allowed id [] = tt
resume-Allowed id (r ∷ rs) = (
  λ e. record {
    same_id = refl;
    same_session = refl;
    same_seq = refl;
    same_request = refl;
    same_input = refl;
    edge = resume_from r.status (&&-right (is_run id r) _ e);
    no_new_writer = λ h. active_from r.status (&&-right (is_run id r) _ e);
  },
  resume-Allowed id rs,
)
  where
    resume_from : (s : RunStatus) → status_eq s waiting_interaction ≡ true → Edge s running
    resume_from waiting_interaction e = resume_edge
    resume_from running e = stay
    resume_from queued e = absurd (cc)
    resume_from completed e = absurd (cc)
    resume_from failed e = absurd (cc)
    resume_from cancelled e = absurd (cc)
    resume_from unknown_after_restart e = absurd (cc)

    active_from : (s : RunStatus) → status_eq s waiting_interaction ≡ true → is_active s ≡ true
    active_from s e = ground arith

answer_rows-From :
    (id : String) (run : ℕ) (approved : Bool) (db : Db) → From db (answer_rows id run approved db)
answer_rows-From id run approved db =
    go (pending_of run (set_answer id approved db.interactions) == 0)
  where
    go :
        (b : Bool)
        → PathTo
            (view db)
            (record { runs = if b then resume run db.runs else db.runs; events = db.events })
    go true = next here (modifies _ _ (resume-Allowed run db.runs))
    go false = here

claim_pending-From :
    (now : ℕ) (id : String) (run revision : ℕ) (approved : Bool) (current : InteractionRow)
    (owner : Run) (db : Db)
    → Ensures (From db) (claim_pending now id run revision approved current owner db)
unfolding claim_pending
claim_pending-From now id run revision approved current owner db =
    Ensures-reject (From db) (not (current.revision == revision)) _ _ (λ _.
      Ensures-reject (From db) (not (status_eq owner.status waiting_interaction)) _ _ (λ _.
        insert_event-From now run _ _ db (answer_rows id run approved db)
          (answer_rows-From id run approved db)))

claim_owned-From :
    (now : ℕ) (id session : String) (run revision : ℕ) (approved : Bool) (current : InteractionRow)
    (owner : Run) (db : Db)
    → Ensures (From db) (claim_owned now id session run revision approved current owner db)
unfolding claim_owned
claim_owned-From now id session run revision approved current owner db =
    Ensures-if (From db) (not (str_eq owner.session session && current.run_id == run))
      (err (protocol "interaction owner 不匹配"))
      (if is_pending current.status
        then claim_pending now id run revision approved current owner db
        else answered_before)
      (λ _. tt)
      (λ _.
        Ensures-if (From db) (is_pending current.status)
          (claim_pending now id run revision approved current owner db) answered_before
          (λ _. claim_pending-From now id run revision approved current owner db)
          (λ _.
            Ensures-if (From db) (is_same_answer current.status current.response approved) (ok db)
              (err (protocol "interaction 已解决或孤立，答案冲突")) (λ _. here) (λ _. tt)))
  where
    answered_before : Result Db
    answered_before =
        if is_same_answer current.status current.response approved
        then ok db
        else err (protocol "interaction 已解决或孤立，答案冲突")

claim_found-From :
    (now : ℕ) (id session : String) (run revision : ℕ) (approved : Bool) (o : Option InteractionRow)
    (db : Db)
    → Ensures (From db) (claim_found now id session run revision approved o db)
unfolding claim_found
claim_found-From now id session run revision approved none db = tt
claim_found-From now id session run revision approved (some current) db =
    go (interaction_owner current db)
  where
    go :
        (o : Option Run)
        → Ensures (From db) (elim o [
          | none ↦ err (protocol "interaction 不存在")
          | some owner ↦ claim_owned now id session run revision approved current owner db
        ])
    go none = tt
    go (some owner) = claim_owned-From now id session run revision approved current owner db

pub claim_interaction-From :
    (now : ℕ) (id session : String) (run revision : ℕ) (approved : Bool) (db : Db)
    → Ensures
        (λ db'. PathTo (view db) (view db'))
        (claim_interaction now id session run revision approved db)
unfolding claim_interaction
claim_interaction-From now id session run revision approved db =
    claim_found-From now id session run revision approved
      (first_where (is_interaction id) db.interactions) db
