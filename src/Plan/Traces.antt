-- ===== src/Plan/Traces.antt =====
-- The plan of src/plan.rs over sequences of operations.
use dtcoder_test.Prelude.{◌≡◌, refl, String, Option, List, [], ◌∷◌, ◌++◌}
use dtcoder_test.Plan.{PlanStatus, PlanStep, Outcome, committed, refused, set, update, add}
use dtcoder_test.Plan.Laws.{IsPlan, commit_valid-IsPlan, same_text-IsPlan, update-Changes}

-- An operation, with what writing the file answers to it.
pub data Command : Type 0 where
  set_command : List PlanStep → Command
  update_command : String → PlanStatus → Command
  add_command : PlanStep → Command

-- The plan after an operation; one that is refused changes nothing.
abbrev pub kept : List PlanStep → Outcome → List PlanStep
kept steps (committed next) = next
kept steps (refused error) = steps

abbrev pub perform : (List PlanStep → Option String) → Command → List PlanStep → Outcome
perform persist (set_command next) steps = set persist next
perform persist (update_command id status) steps = update persist id status steps
perform persist (add_command step) steps = add persist step steps

unfoldable pub perform_all :
    List ((List PlanStep → Option String) × Command) → List PlanStep → List PlanStep
perform_all [] steps = steps
perform_all ((persist, c) ∷ cs) steps = perform_all cs (kept steps (perform persist c steps))

perform-IsPlan :
    (persist : List PlanStep → Option String) (c : Command) (steps next : List PlanStep)
    → IsPlan steps
    → perform persist c steps ≡ committed next
    → IsPlan next
unfolding set add
perform-IsPlan persist (set_command given) steps next p h = commit_valid-IsPlan persist given next h
perform-IsPlan persist (update_command id status) steps next p h =
    let changes = (update-Changes persist id status steps).0 next h in
    same_text-IsPlan steps next changes.2 changes.3 p
perform-IsPlan persist (add_command step) steps next p h =
    commit_valid-IsPlan persist (steps ++ (step ∷ [])) next h

kept-IsPlan :
    (steps : List PlanStep) (o : Outcome)
    → ((next : List PlanStep) → o ≡ committed next → IsPlan next)
    → IsPlan steps
    → IsPlan (kept steps o)
kept-IsPlan steps (committed next) h p = h next refl
kept-IsPlan steps (refused error) h p = p

-- Whatever is set, updated or added, and whichever writes of the file fail, a plan that is as it
-- should be stays so, although `update` does not validate it.
pub perform_all-IsPlan :
    (cs : List ((List PlanStep → Option String) × Command)) (steps : List PlanStep)
    → IsPlan steps
    → IsPlan (perform_all cs steps)
unfolding perform_all
perform_all-IsPlan [] steps p = p
perform_all-IsPlan ((persist, c) ∷ cs) steps p =
    perform_all-IsPlan cs (kept steps (perform persist c steps)) (
      kept-IsPlan steps (perform persist c steps)
        (λ next h. perform-IsPlan persist c steps next p h) p)
