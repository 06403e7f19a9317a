-- ===== src/Plan/Laws.antt =====
-- What src/plan.rs keeps of a plan.
use dtcoder_test.Prelude.{
  ◌≡◌, ◌≢◌, refl, sym, ap, inl, inr, ◌↔◌, String, Bool, false, Option, none, some, List, [], ◌∷◌,
  map, if◌then◌else◌, str_eq, arith, All, eq_iff, Option-cases, Bool-cases,
}
use dtcoder_test.Prelude.Text.{is_blank}
use dtcoder_test.Plan.{
  PlanStatus, PlanStep, empty_id, empty_description, duplicate_id, missing_step, committed, refused,
  contains, validate_from, validate_steps, set_status, commit, commit_valid, update,
}

-- A plan as it should be: no step has a blank id or description, and no two have the same id.
abbrev pub IsFresh : List PlanStep → String → Type 0
IsFresh steps id = All (λ s. s.id ≢ id) steps

abbrev pub IsPlan : List PlanStep → Type 0
IsPlan [] = Unit
IsPlan (s ∷ steps) =
    (is_blank s.id ≡ false) × (is_blank s.description ≡ false) × IsFresh steps s.id × IsPlan steps

-- The ids of `seen` are used by none of the steps.
abbrev Apart : List String → List PlanStep → Type 0
Apart seen steps = All (λ s. contains s.id seen ≡ false) steps

Apart-cons :
    (id : String) (seen : List String) (steps : List PlanStep)
    → IsFresh steps id
    → Apart seen steps
    → Apart (id ∷ seen) steps
Apart-cons id seen [] f a = tt
Apart-cons id seen (s ∷ steps) f a =
    (ground (arith, eq_iff id s.id, f.0, a.0), Apart-cons id seen steps f.1 a.1)

cons-Apart :
    (id : String) (seen : List String) (steps : List PlanStep)
    → Apart (id ∷ seen) steps
    → IsFresh steps id × Apart seen steps
cons-Apart id seen [] a = (tt, tt)
cons-Apart id seen (s ∷ steps) a =
    let rest = cons-Apart id seen steps a.1 in
    ((λ e. ground (arith, eq_iff id s.id, a.0), rest.0), (ground (arith, a.0), rest.1))

clear {ℓ} :
    {A : Type ℓ} (a b c : Bool) (e1 e2 e3 : A) (rest : Option A)
    → (if a then some e1 else if b then some e2 else if c then some e3 else rest) ≡ none
    → (a ≡ false) × (b ≡ false) × (c ≡ false) × (rest ≡ none)
clear a b c e1 e2 e3 rest h = (ground arith, ground arith, ground arith, ground arith)

validate_from_sound :
    (seen : List String) (steps : List PlanStep)
    → validate_from seen steps ≡ none
    → Apart seen steps × IsPlan steps
unfolding validate_from
validate_from_sound seen [] h = (tt, tt)
validate_from_sound seen (s ∷ steps) h =
    let checks =
      clear (is_blank s.id) (is_blank s.description) (contains s.id seen) empty_id
        (empty_description s.id) (duplicate_id s.id) (validate_from (s.id ∷ seen) steps) h in
    let rest = validate_from_sound (s.id ∷ seen) steps checks.3 in
    let apart = cons-Apart s.id seen steps rest.0 in
    ((checks.2, apart.1), (checks.0, checks.1, apart.0, rest.1))

validate_from_complete :
    (seen : List String) (steps : List PlanStep)
    → Apart seen steps
    → IsPlan steps
    → validate_from seen steps ≡ none
unfolding validate_from
validate_from_complete seen [] a p = refl
validate_from_complete seen (s ∷ steps) a p =
    let rest =
      validate_from_complete (s.id ∷ seen) steps (Apart-cons s.id seen steps p.2 a.1) p.3 in
    ground (arith, rest, a.0, p.0, p.1)

empty-Apart : (steps : List PlanStep) → Apart [] steps
empty-Apart [] = tt
empty-Apart (s ∷ steps) = (refl, empty-Apart steps)

-- The loop accepts exactly the plans that are as they should be: its set of seen ids finds each
-- repetition.
pub validate_steps_lem : (steps : List PlanStep) → (validate_steps steps ≡ none) ↔ IsPlan steps
validate_steps_lem steps =
    ((λ h. (validate_from_sound [] steps h).1), validate_from_complete [] steps (empty-Apart steps))

-- The status that the plan shows for an id.
abbrev pub status_of : String → List PlanStep → Option PlanStatus
status_of id [] = none
status_of id (s ∷ steps) = if str_eq s.id id then some s.status else status_of id steps

abbrev pub ids_of : List PlanStep → List String
ids_of = map (λ s. s.id)

abbrev pub descriptions_of : List PlanStep → List String
descriptions_of = map (λ s. s.description)

-- `next` is `steps` with one status changed.
abbrev pub Changes : String → PlanStatus → List PlanStep → List PlanStep → Type 0
Changes id status steps next =
    (status_of id next ≡ some status)
    × ((other : String) → id ≢ other → status_of other next ≡ status_of other steps)
    × (ids_of next ≡ ids_of steps)
    × (descriptions_of next ≡ descriptions_of steps)

other_status :
    (id other : String) (status : PlanStatus) (s : PlanStep) (steps : List PlanStep)
    → s.id ≡ id
    → id ≢ other
    → status_of other (record s { status = status } ∷ steps) ≡ status_of other (s ∷ steps)
other_status id other status s steps e ne = ground (arith, eq_iff s.id other)

some_injective {ℓ} : {A : Type ℓ} {a b : A} → some a ≡ some b → a ≡ b
some_injective h = cc

set_status-Changes :
    (id : String) (status : PlanStatus) (steps next : List PlanStep)
    → set_status id status steps ≡ some next
    → Changes id status steps next
set_status-Changes id status [] next h = absurd (ground arith)
set_status-Changes id status (s ∷ steps) next h = elim (Bool-cases (str_eq s.id id)) [
  | inl e ↦
      let found : record s { status = status } ∷ steps ≡ next = some_injective (rw e at h) in
      rw (sym found) (
        rw e refl,
        λ other ne. other_status id other status s steps ((eq_iff s.id id).0 e) ne,
        refl,
        refl,
      )
  | inr e ↦ elim (Option-cases (set_status id status steps)) [
    | inl none_later ↦ absurd (ground (arith, rw (e, none_later) at h))
    | inr (steps', found) ↦
        let later : s ∷ steps' ≡ next = some_injective (rw (e, found) at h) in
        let rest = set_status-Changes id status steps steps' found in
        rw (sym later) (
          rw e rest.0,
          λ other ne. rw (rest.1 other ne) refl,
          ap (λ l. s.id ∷ l) rest.2,
          ap (λ l. s.description ∷ l) rest.3,
        )
  ]
]

set_status-none :
    (id : String) (status : PlanStatus) (steps : List PlanStep)
    → status_of id steps ≡ none
    → set_status id status steps ≡ none
set_status-none id status [] h = refl
set_status-none id status (s ∷ steps) h =
    let absent : str_eq s.id id ≡ false = ground arith in
    rw (absent, set_status-none id status steps (rw absent at h)) refl

same_ids-IsFresh :
    (id : String) (steps next : List PlanStep)
    → ids_of next ≡ ids_of steps
    → IsFresh steps id
    → IsFresh next id
same_ids-IsFresh id [] [] i f = tt
same_ids-IsFresh id [] (n ∷ next) i f = absurd (ground arith)
same_ids-IsFresh id (s ∷ steps) [] i f = absurd (ground arith)
same_ids-IsFresh id (s ∷ steps) (n ∷ next) i f =
    let same : n.id ≡ s.id = cc in
    let ids : ids_of next ≡ ids_of steps = cc in
    (rw same f.0, same_ids-IsFresh id steps next ids f.1)

pub same_text-IsPlan :
    (steps next : List PlanStep)
    → ids_of next ≡ ids_of steps
    → descriptions_of next ≡ descriptions_of steps
    → IsPlan steps
    → IsPlan next
same_text-IsPlan [] [] i d p = tt
same_text-IsPlan [] (n ∷ next) i d p = absurd (ground arith)
same_text-IsPlan (s ∷ steps) [] i d p = absurd (ground arith)
same_text-IsPlan (s ∷ steps) (n ∷ next) i d p =
    let id : n.id ≡ s.id = cc in
    let description : n.description ≡ s.description = cc in
    let ids : ids_of next ≡ ids_of steps = cc in
    let descriptions : descriptions_of next ≡ descriptions_of steps = cc in
    (
      rw id p.0,
      rw description p.1,
      rw id (same_ids-IsFresh s.id steps next ids p.2),
      same_text-IsPlan steps next ids descriptions p.3,
    )

committed_injective : {steps next : List PlanStep} → committed steps ≡ committed next → steps ≡ next
committed_injective h = cc

module _ (persist : List PlanStep → Option String) where
  commit_lem : (steps next : List PlanStep) → commit persist steps ≡ committed next → next ≡ steps
  commit_lem steps next h = elim (Option-cases (persist steps)) [
    | inl e ↦ sym (committed_injective (rw e at h))
    | inr (error, e) ↦ absurd (ground (arith, rw e at h))
  ]

  -- An update that is committed gives the step its new status and leaves the status of every other
  -- id, all ids and all descriptions as they were, in their order. An update of an id that the plan
  -- does not have is refused with that id.
  pub update-Changes :
      (id : String) (status : PlanStatus) (steps : List PlanStep)
      → ((next : List PlanStep)
          → update persist id status steps ≡ committed next
          → Changes id status steps next)
        × (status_of id steps ≡ none → update persist id status steps ≡ refused (missing_step id))
  unfolding update
  update-Changes id status steps = (
    λ next h. elim (Option-cases (set_status id status steps)) [
      | inl e ↦ absurd (ground (arith, rw e at h))
      | inr (steps', e) ↦
          rw (commit_lem steps' next (rw e at h)) (set_status-Changes id status steps steps' e)
    ],
    λ h. rw (set_status-none id status steps h) refl,
  )

  pub commit_valid-IsPlan :
      (steps next : List PlanStep)
      → commit_valid persist steps (validate_steps steps) ≡ committed next
      → IsPlan next
  commit_valid-IsPlan steps next h = elim (Option-cases (validate_steps steps)) [
    | inl e ↦ rw (commit_lem steps next (rw e at h)) ((validate_steps_lem steps).0 e)
    | inr (error, e) ↦ absurd (ground (arith, rw e at h))
  ]
