-- ===== src/Examples/Plan.antt =====
-- The theorems on src/plan.rs at a plan of two steps.
use dtcoder_test.Prelude.{◌≡◌, ◌↔◌, refl, String, Option, none, some, List, [], ◌∷◌}
use dtcoder_test.Prelude.Text.{is_blank}
use dtcoder_test.Plan.{
  pending, in_progress, done, PlanStep, committed, refused, missing_step, validate_steps,
  validate_from, update,
}
use dtcoder_test.Plan.Laws.{IsPlan, Changes, status_of, validate_steps_lem, update-Changes}
use dtcoder_test.Plan.Traces.{
  Command, set_command, update_command, add_command, perform_all, perform_all-IsPlan,
}

abbrev written : List PlanStep → Option String
written steps = none

abbrev full : List PlanStep → Option String
full steps = some "no space left on device"

abbrev steps : List PlanStep
steps =
    record { id = "1"; description = "read"; status = done }
    ∷ record { id = "2"; description = "write"; status = pending }
    ∷ []

steps_valid : validate_steps steps ≡ none
unfolding validate_from is_blank
steps_valid = refl

steps-IsPlan : IsPlan steps
steps-IsPlan = (validate_steps_lem steps).0 steps_valid

validate_steps_lem_example : (validate_steps steps ≡ none) ↔ IsPlan steps
validate_steps_lem_example = validate_steps_lem steps

update-Changes_example :
    ((next : List PlanStep)
      → update written "2" in_progress steps ≡ committed next
      → Changes "2" in_progress steps next)
    × (status_of "2" steps ≡ none
        → update written "2" in_progress steps ≡ refused (missing_step "2"))
update-Changes_example = update-Changes written "2" in_progress steps

abbrev commands : List ((List PlanStep → Option String) × Command)
commands =
    (written, update_command "2" in_progress)
    ∷ (full, set_command [])
    ∷ (written, add_command (record { id = "2"; description = "again"; status = pending }))
    ∷ []

perform_all-IsPlan_example : IsPlan (perform_all commands steps)
perform_all-IsPlan_example = perform_all-IsPlan commands steps steps-IsPlan
