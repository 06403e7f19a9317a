-- ===== src/Safety/Policy.antt =====
-- src/safety.rs: the decisions of `SafetyPolicy`. The user's answer to a prompt is a function; a
-- prompt stands as what its text is made from, and an error of the approval as its text.
use dtcoder_test.Prelude.{
  ℕ, Bool, true, false, not, ◌&&◌, ◌||◌, String, Option, none, some, List, [], ◌∷◌, ◌++◌,
  if◌then◌else◌, ◌⊎◌, inl, inr,
}
use dtcoder_test.Prelude.Text.{codes, trim}
use dtcoder_test.Safety.Words.{is_one_of, to_ascii_lowercase, ends_with}
use dtcoder_test.Safety.Commands.{
  CommandDecision, allowed, needs_approval, blocked, classify_command, command_uses_network,
  is_command_key,
}
use dtcoder_test.Safety.Paths.{
  Component, FileSystem, PathError, resolve_path, path_starts_with, is_protected_path,
}
use dtcoder_test.Safety.Values.{
  Value, null, boolean, number, string, array, object, Items, no_items, item, Fields, no_fields,
  field,
}

pub data PathIntent : Type 0 where
  read write edit : PathIntent

pub data SafetyMode : Type 0 where
  request_approval risk_approval full_access : SafetyMode

abbrev pub parse_mode : List ℕ → Option SafetyMode
parse_mode value =
    let word = to_ascii_lowercase (trim value) in
    if is_one_of word ("request" ∷ "ask" ∷ "approval" ∷ "request_approval" ∷ [])
    then some request_approval
    else if is_one_of word ("risk" ∷ "risky" ∷ "auto" ∷ "risk_approval" ∷ [])
    then some risk_approval
    else if is_one_of word ("full" ∷ "access" ∷ "full_access" ∷ [])
    then some full_access
    else none

abbrev pub key : SafetyMode → String
key request_approval = "request_approval"
key risk_approval = "risk_approval"
key full_access = "full_access"

pub data Notice : Type 0 where
  risky_command : String → Notice
  outside_path : List String → Notice

pub data Prompt : Type 0 where
  path_prompt : PathIntent → Bool → List String → Prompt
  network_prompt : List ℕ → Prompt
  risk_prompt : String → List ℕ → Prompt
  external_prompt : String → Value → List Notice → Prompt

pub data SafetyError : Type 0 where
  blocked_command : String → SafetyError
  outside_read protected_path : List String → SafetyError
  user_rejected : Prompt → SafetyError
  unresolved : PathError → SafetyError
  approval_failed : String → SafetyError

abbrev pub is_read : PathIntent → Bool
is_read read = true
is_read other = false

abbrev pub is_full : SafetyMode → Bool
is_full full_access = true
is_full other = false

abbrev pub is_request : SafetyMode → Bool
is_request request_approval = true
is_request other = false

-- `key.is_some_and(is_command_key)` and `key.is_some_and(is_path_key)`
abbrev pub is_path_key : List ℕ → Bool
is_path_key name =
    let word = to_ascii_lowercase name in
    is_one_of word ("path" ∷ "paths" ∷ "cwd" ∷ "directory" ∷ "root" ∷ [])
    || ends_with (codes "_path") word

abbrev pub some_and : (List ℕ → Bool) → Option (List ℕ) → Bool
some_and test none = false
some_and test (some name) = test name

-- What an answer of the user makes of a request.
abbrev pub answered : {A : Type 0} → A → Prompt → Bool ⊎ String → A ⊎ SafetyError
answered value prompt (inl true) = inl value
answered value prompt (inl false) = inr (user_rejected prompt)
answered value prompt (inr error) = inr (approval_failed error)

abbrev pub push_decision : CommandDecision → List Notice → List Notice ⊎ SafetyError
push_decision allowed notices = inl notices
push_decision (blocked reason) notices = inr (blocked_command reason)
push_decision (needs_approval reason) notices = inl (notices ++ (risky_command reason ∷ []))

abbrev pub and_then :
    List Notice ⊎ SafetyError
    → (List Notice → List Notice ⊎ SafetyError)
    → List Notice ⊎ SafetyError
and_then (inr error) next = inr error
and_then (inl notices) next = next notices

module _ (fs : FileSystem) (workspace : List String) (ask : Prompt → Bool ⊎ String) where
  abbrev pub request : {A : Type 0} → A → Prompt → A ⊎ SafetyError
  request value prompt = answered value prompt (ask prompt)

  abbrev pub authorize_resolved : SafetyMode → PathIntent → List String → List String ⊎ SafetyError
  authorize_resolved mode intent path =
      if not (is_read intent) && is_protected_path fs workspace path
      then inr (protected_path path)
      else if is_full mode
      then inl path
      else if path_starts_with path workspace
      then (if is_request mode && not (is_read intent)
          then request path (path_prompt intent true path)
          else inl path)
      else if is_read intent
      then inr (outside_read path)
      else request path (path_prompt intent false path)

  abbrev pub after_resolve :
      SafetyMode → PathIntent → List String ⊎ PathError → List String ⊎ SafetyError
  after_resolve mode intent (inr error) = inr (unresolved error)
  after_resolve mode intent (inl path) = authorize_resolved mode intent path

  unfoldable pub authorize_path :
      SafetyMode → PathIntent → List Component → List String ⊎ SafetyError
  authorize_path mode intent requested =
      after_resolve mode intent (resolve_path fs workspace requested)

  abbrev pub authorize_decision : SafetyMode → List ℕ → CommandDecision → Unit {0} ⊎ SafetyError
  authorize_decision mode command allowed =
      if is_request mode && command_uses_network command
      then request tt (network_prompt command)
      else inl tt
  authorize_decision mode command (blocked reason) = inr (blocked_command reason)
  authorize_decision mode command (needs_approval reason) =
      if is_full mode then inl tt else request tt (risk_prompt reason command)

  unfoldable pub authorize_command : SafetyMode → List ℕ → Unit {0} ⊎ SafetyError
  authorize_command mode command = authorize_decision mode command (classify_command command)

  abbrev pub push_path : List String ⊎ PathError → List Notice → List Notice ⊎ SafetyError
  push_path (inr error) notices = inr (unresolved error)
  push_path (inl path) notices =
      if path_starts_with path workspace
      then inl notices
      else inl (notices ++ (outside_path path ∷ []))

module _ (fs : FileSystem) (workspace : List String) (components : List ℕ → List Component)
    (ask : Prompt → Bool ⊎ String) where
  abbrev pub inspect_string : List ℕ → Option (List ℕ) → List Notice → List Notice ⊎ SafetyError
  inspect_string content name notices =
      if some_and is_command_key name
      then push_decision (classify_command content) notices
      else if some_and is_path_key name
      then push_path fs workspace ask (resolve_path fs workspace (components content)) notices
      else inl notices

  -- `inspect_external_arguments`, on a value, on items and on fields.
  unfoldable mutual
    pub inspect : Value → Option (List ℕ) → List Notice → List Notice ⊎ SafetyError
    inspect null name notices = inl notices
    inspect (boolean b) name notices = inl notices
    inspect (number n) name notices = inl notices
    inspect (string content) name notices = inspect_string content name notices
    inspect (array items) name notices = inspect_items items name notices
    inspect (object fields) name notices = inspect_fields fields notices

    pub inspect_items : Items → Option (List ℕ) → List Notice → List Notice ⊎ SafetyError
    inspect_items no_items name notices = inl notices
    inspect_items (item v items) name notices =
        and_then (inspect v name notices) (inspect_items items name)

    pub inspect_fields : Fields → List Notice → List Notice ⊎ SafetyError
    inspect_fields no_fields notices = inl notices
    inspect_fields (field name v fields) notices =
        and_then (inspect v (some name) notices) (inspect_fields fields)

  abbrev pub ask_external :
      SafetyMode → String → Value → List Notice ⊎ SafetyError → Unit {0} ⊎ SafetyError
  ask_external mode description arguments (inr error) = inr error
  ask_external mode description arguments (inl notices) =
      if is_full mode
      then inl tt
      else request fs workspace ask tt (external_prompt description arguments notices)

  unfoldable pub authorize_external_action : SafetyMode → String → Value → Unit {0} ⊎ SafetyError
  authorize_external_action mode description arguments =
      ask_external mode description arguments (inspect arguments none [])
