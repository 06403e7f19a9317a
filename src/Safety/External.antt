-- ===== src/Safety/External.antt =====
-- The arguments of an external tool that is allowed (src/safety.rs).
use dtcoder_test.Prelude.{
  ℕ, ◌≡◌, refl, sym, ◌∙◌, Bool, true, false, String, Option, none, some, List, [], ◌⊎◌, inl, inr,
  arith, Bool-cases,
}
use dtcoder_test.Safety.Commands.{
  CommandDecision, allowed, needs_approval, blocked, classify_command, is_command_key,
}
use dtcoder_test.Safety.Paths.{Component, FileSystem}
use dtcoder_test.Safety.Values.{
  Value, null, boolean, number, string, array, object, Items, no_items, item, Fields, no_fields,
  field,
}
use dtcoder_test.Safety.Policy.{
  SafetyMode, Notice, Prompt, external_prompt, SafetyError, request, is_full, some_and,
  push_decision, inspect_string, and_then, inspect, inspect_items, inspect_fields, ask_external,
  authorize_external_action,
}
use dtcoder_test.Safety.Permits.{is_allowed, says_yes, request-is_allowed}

abbrev pub is_blocked : CommandDecision → Bool
is_blocked (blocked reason) = true
is_blocked other = false

-- No text that stands under the key of a command, at any depth, is a blocked command.
unfoldable mutual
  pub IsClean : Value → Option (List ℕ) → Type 0
  IsClean null name = Unit
  IsClean (boolean b) name = Unit
  IsClean (number n) name = Unit
  IsClean (string content) name =
      some_and is_command_key name ≡ true → is_blocked (classify_command content) ≡ false
  IsClean (array items) name = AreClean items name
  IsClean (object fields) name = FieldsAreClean fields

  pub AreClean : Items → Option (List ℕ) → Type 0
  AreClean no_items name = Unit
  AreClean (item v items) name = IsClean v name × AreClean items name

  pub FieldsAreClean : Fields → Type 0
  FieldsAreClean no_fields = Unit
  FieldsAreClean (field name v fields) = IsClean v (some name) × FieldsAreClean fields

and_then-first :
    (r : List Notice ⊎ SafetyError) (next : List Notice → List Notice ⊎ SafetyError)
    → is_allowed (and_then r next) ≡ true
    → is_allowed r ≡ true
and_then-first (inl notices) next h = refl
and_then-first (inr error) next h = absurd (ground arith)

and_then-second :
    (P : Type 0) (r : List Notice ⊎ SafetyError) (next : List Notice → List Notice ⊎ SafetyError)
    → ((notices : List Notice) → is_allowed (next notices) ≡ true → P)
    → is_allowed (and_then r next) ≡ true
    → P
and_then-second P (inl notices) next f h = f notices h
and_then-second P (inr error) next f h = absurd (ground arith)

push_decision-is_blocked :
    (d : CommandDecision) (notices : List Notice)
    → is_allowed (push_decision d notices) ≡ true
    → is_blocked d ≡ false
push_decision-is_blocked allowed notices h = refl
push_decision-is_blocked (needs_approval reason) notices h = refl
push_decision-is_blocked (blocked reason) notices h = absurd (ground arith)

module _ (fs : FileSystem) (workspace : List String) (components : List ℕ → List Component)
    (ask : Prompt → Bool ⊎ String) where
  string-IsClean :
      (content : List ℕ) (name : Option (List ℕ)) (notices : List Notice)
      → is_allowed (inspect_string fs workspace components ask content name notices) ≡ true
      → some_and is_command_key name ≡ true
      → is_blocked (classify_command content) ≡ false
  string-IsClean content name notices h k =
      push_decision-is_blocked (classify_command content) notices (rw k at h)

  mutual
    unfolding inspect inspect_items inspect_fields IsClean AreClean FieldsAreClean

    inspect-IsClean :
        (v : Value) (name : Option (List ℕ)) (notices : List Notice)
        → is_allowed (inspect fs workspace components ask v name notices) ≡ true
        → IsClean v name
    inspect-IsClean null name notices h = tt
    inspect-IsClean (boolean b) name notices h = tt
    inspect-IsClean (number n) name notices h = tt
    inspect-IsClean (string content) name notices h = λ k. string-IsClean content name notices h k
    inspect-IsClean (array items) name notices h = inspect_items-AreClean items name notices h
    inspect-IsClean (object fields) name notices h = inspect_fields-AreClean fields notices h

    inspect_items-AreClean :
        (items : Items) (name : Option (List ℕ)) (notices : List Notice)
        → is_allowed (inspect_items fs workspace components ask items name notices) ≡ true
        → AreClean items name
    inspect_items-AreClean no_items name notices h = tt
    inspect_items-AreClean (item v items) name notices h = (
      inspect-IsClean v name notices
          (and_then-first _ (inspect_items fs workspace components ask items name) h),
      and_then-second (AreClean items name) (inspect fs workspace components ask v name notices)
          (inspect_items fs workspace components ask items name) (inspect_items-AreClean items name)
          h,
    )

    inspect_fields-AreClean :
        (fields : Fields) (notices : List Notice)
        → is_allowed (inspect_fields fs workspace components ask fields notices) ≡ true
        → FieldsAreClean fields
    inspect_fields-AreClean no_fields notices h = tt
    inspect_fields-AreClean (field name v fields) notices h = (
      inspect-IsClean v (some name) notices
          (and_then-first _ (inspect_fields fs workspace components ask fields) h),
      and_then-second (FieldsAreClean fields)
          (inspect fs workspace components ask v (some name) notices)
          (inspect_fields fs workspace components ask fields) (inspect_fields-AreClean fields) h,
    )

  -- The mode asks nobody, or the user approves of the call with all notices on its arguments.
  abbrev pub IsApproved : SafetyMode → String → Value → List Notice ⊎ SafetyError → Type 0
  IsApproved mode description arguments inspected =
      (is_full mode ≡ true)
      ⊎ ((notices : List Notice) × (inspected ≡ inl notices)
          × (says_yes (ask (external_prompt description arguments notices)) ≡ true))

  ask_external-IsApproved :
      (mode : SafetyMode) (description : String) (arguments : Value) (r : List Notice ⊎ SafetyError)
      → is_allowed (ask_external fs workspace components ask mode description arguments r) ≡ true
      → (is_allowed r ≡ true) × IsApproved mode description arguments r
  ask_external-IsApproved mode description arguments (inr error) h = absurd (ground arith)
  ask_external-IsApproved mode description arguments (inl notices) h =
      elim (Bool-cases (is_full mode)) [
        | inl f ↦ (refl, inl f)
        | inr f ↦
            let answer : is_allowed
                  (request fs workspace ask tt (external_prompt description arguments notices))
                ≡ true =
              rw f at h in
            (
              refl,
              inr (
                notices,
                refl,
                sym (
                      request-is_allowed fs workspace ask (tt {0})
                        (external_prompt description arguments notices))
                    ∙ answer,
              ),
            )
      ]

  -- A call of an external tool is allowed only if no text under the key of a command, at any depth
  -- of its arguments, is a blocked command, with full access neither; and, without full access, only
  -- if the user approves of it, with every notice that the inspection of the arguments gives.
  pub authorize_external_action-IsClean :
      (mode : SafetyMode) (description : String) (arguments : Value)
      → is_allowed
          (authorize_external_action fs workspace components ask mode description arguments)
        ≡ true
      → IsClean arguments none
        × IsApproved mode description arguments
            (inspect fs workspace components ask arguments none [])
  unfolding authorize_external_action
  authorize_external_action-IsClean mode description arguments h =
      let asked =
        ask_external-IsApproved mode description arguments
          (inspect fs workspace components ask arguments none []) h in
      (inspect-IsClean arguments none [] asked.0, asked.1)
