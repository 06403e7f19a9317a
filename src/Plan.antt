-- ===== src/Plan.antt =====
-- src/plan.rs: the plan of a task, a list of steps. The mutation lock makes each operation one step
-- on the state. `persist` is what writing the file answers: nothing, or the text of an error; the
-- text of the plan that an operation returns (render_plan) is not modelled.
pub mod Laws
pub mod Traces
use dtcoder_test.Prelude.{
  ◌≡◌, String, Bool, true, false, ◌||◌, Option, none, some, List, [], ◌∷◌, ◌++◌, if◌then◌else◌,
  str_eq,
}
use dtcoder_test.Prelude.Text.{is_blank}
use dtcoder_test.Prelude.Tables.{map_option}

pub data PlanStatus : Type 0 where
  pending in_progress done : PlanStatus

pub record PlanStep : Type 0 where
  pub id : String
  pub description : String
  pub status : PlanStatus

-- `io` is an error of the file system.
pub data PlanError : Type 0 where
  empty_id : PlanError
  empty_description duplicate_id missing_step io : String → PlanError

-- The state after an operation, and its error, if it fails.
pub data Outcome : Type 0 where
  committed : List PlanStep → Outcome
  refused : PlanError → Outcome

abbrev pub contains : String → List String → Bool
contains id [] = false
contains id (i ∷ ids) = str_eq i id || contains id ids

-- The loop of `validate_steps`, with the ids that it has inserted.
unfoldable pub validate_from : List String → List PlanStep → Option PlanError
validate_from seen [] = none
validate_from seen (s ∷ steps) =
    let rest = validate_from (s.id ∷ seen) steps in
    if is_blank s.id
    then some empty_id
    else if is_blank s.description
    then some (empty_description s.id)
    else if contains s.id seen
    then some (duplicate_id s.id)
    else rest

abbrev pub validate_steps : List PlanStep → Option PlanError
validate_steps steps = validate_from [] steps

-- `find` and the assignment through the reference that it gives.
abbrev pub set_status : String → PlanStatus → List PlanStep → Option (List PlanStep)
set_status id status [] = none
set_status id status (s ∷ steps) =
    let rest = set_status id status steps in
    if str_eq s.id id
    then some (record s { status = status } ∷ steps)
    else map_option (λ steps'. s ∷ steps') rest

abbrev pub committed_if : Option String → List PlanStep → Outcome
committed_if none next = committed next
committed_if (some error) next = refused (io error)

module _ (persist : List PlanStep → Option String) where
  abbrev pub commit : List PlanStep → Outcome
  commit next = committed_if (persist next) next

  abbrev pub commit_valid : List PlanStep → Option PlanError → Outcome
  commit_valid next none = commit next
  commit_valid next (some error) = refused error

  unfoldable pub set : List PlanStep → Outcome
  set steps = commit_valid steps (validate_steps steps)

  abbrev pub commit_found : String → Option (List PlanStep) → Outcome
  commit_found id none = refused (missing_step id)
  commit_found id (some next) = commit next

  unfoldable pub update : String → PlanStatus → List PlanStep → Outcome
  update id status steps = commit_found id (set_status id status steps)

  unfoldable pub add : PlanStep → List PlanStep → Outcome
  add step steps = let next = steps ++ (step ∷ []) in commit_valid next (validate_steps next)
