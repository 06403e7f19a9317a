-- ===== src/Safety/Permits.antt =====
-- What is allowed, said apart from how it is decided (src/safety.rs).
use dtcoder_test.Prelude.{
  ℕ, ◌≡◌, refl, Bool, true, false, not, ◌&&◌, ◌||◌, String, List, if◌then◌else◌, ◌⊎◌, inl, inr,
  arith, Bool-cases,
}
use dtcoder_test.Safety.Commands.{
  CommandDecision, allowed, needs_approval, blocked, classify_command, command_uses_network,
}
use dtcoder_test.Safety.Paths.{
  Component, FileSystem, candidate, lexical_normalize, resolve_path, path_starts_with,
  is_protected_path,
}
use dtcoder_test.Safety.Paths.Resolved.{
  IsResolved, IsNormalizer, resolve_path-IsResolved, lexical_normalize-IsNormalizer,
}
use dtcoder_test.Safety.Paths.Protected.{
  Reflects, IsUnder, IsProtected, path_starts_with-Reflects, is_protected_path-Reflects,
}
use dtcoder_test.Safety.Policy.{
  PathIntent, read, SafetyMode, request_approval, risk_approval, full_access, Prompt, path_prompt,
  network_prompt, risk_prompt, SafetyError, outside_read, protected_path, is_read, is_full,
  is_request, answered, request, authorize_resolved, authorize_path, authorize_decision,
  authorize_command,
}

abbrev pub says_yes : Bool ⊎ String → Bool
says_yes (inl answer) = answer
says_yes (inr error) = false

abbrev pub is_allowed : {A : Type 0} → A ⊎ SafetyError → Bool
is_allowed (inl value) = true
is_allowed (inr error) = false

-- Which accesses to a path may happen: a protected path is only read; all else is allowed with full
-- access; inside the workspace writing asks the user only in the mode that asks for everything;
-- outside nothing is read, and every writing asks.
abbrev pub path_permitted : SafetyMode → PathIntent → Bool → Bool → (Bool → Bool) → Bool
path_permitted mode read is_protected inside approves = is_full mode || inside
path_permitted full_access intent is_protected inside approves = not is_protected
path_permitted risk_approval intent is_protected inside approves =
    not is_protected && (inside || approves false)
path_permitted request_approval intent is_protected inside approves =
    not is_protected && approves inside

-- Which commands may run: none that is blocked, in no mode.
abbrev pub command_permitted : SafetyMode → CommandDecision → Bool → Bool → Bool → Bool
command_permitted mode (blocked reason) network approves_network approves_risk = false
command_permitted full_access decision network approves_network approves_risk = true
command_permitted mode (needs_approval reason) network approves_network approves_risk =
    approves_risk
command_permitted risk_approval allowed network approves_network approves_risk = true
command_permitted request_approval allowed network approves_network approves_risk =
    not network || approves_network

abbrev pub reason_of : CommandDecision → String
reason_of allowed = ""
reason_of (needs_approval reason) = reason
reason_of (blocked reason) = reason

answered-is_allowed :
    {A : Type 0} (value : A) (prompt : Prompt) (answer : Bool ⊎ String)
    → is_allowed (answered value prompt answer) ≡ says_yes answer
answered-is_allowed value prompt (inl true) = refl
answered-is_allowed value prompt (inl false) = refl
answered-is_allowed value prompt (inr error) = refl

-- The value that an access is allowed for.
abbrev pub Gives : {A : Type 0} → A → A ⊎ SafetyError → Type 0
Gives value (inl other) = other ≡ value
Gives value (inr error) = Unit

answered-Gives :
    {A : Type 0} (value : A) (prompt : Prompt) (answer : Bool ⊎ String)
    → Gives value (answered value prompt answer)
answered-Gives value prompt (inl true) = refl
answered-Gives value prompt (inl false) = tt
answered-Gives value prompt (inr error) = tt

Gives-if :
    {A : Type 0} (test : Bool) (value : A) (a b : A ⊎ SafetyError)
    → Gives value a
    → Gives value b
    → Gives value (if test then a else b)
Gives-if true value a b h k = h
Gives-if false value a b h k = k

module _ (fs : FileSystem) (workspace : List String) (ask : Prompt → Bool ⊎ String) where
  pub request-is_allowed :
      {A : Type 0} (value : A) (prompt : Prompt)
      → is_allowed (request fs workspace ask value prompt) ≡ says_yes (ask prompt)
  request-is_allowed value prompt = answered-is_allowed value prompt (ask prompt)

  resolved-is_allowed :
      (mode : SafetyMode) (intent : PathIntent) (path : List String)
      → is_allowed (authorize_resolved fs workspace ask mode intent path)
        ≡ path_permitted mode intent
            (is_protected_path fs workspace path)
            (path_starts_with path workspace)
            (λ inside. says_yes (ask (path_prompt intent inside path)))
  resolved-is_allowed mode intent path = ground (
    arith,
    request-is_allowed path (path_prompt intent true path),
    request-is_allowed path (path_prompt intent false path),
  )

  resolved-Gives :
      (mode : SafetyMode) (intent : PathIntent) (path : List String)
      → Gives path (authorize_resolved fs workspace ask mode intent path)
  resolved-Gives mode intent path =
      let answer =
        λ (inside : Bool). request fs workspace ask path (path_prompt intent inside path) in
      let given = λ (inside : Bool).
        answered-Gives path (path_prompt intent inside path)
          (ask (path_prompt intent inside path)) in
      let refused : List String ⊎ SafetyError = inr (outside_read path) in
      let inner = if is_request mode && not (is_read intent) then answer true else inl path in
      let outer = if is_read intent then refused else answer false in
      let below = if path_starts_with path workspace then inner else outer in
      Gives-if (not (is_read intent) && is_protected_path fs workspace path) path
        (inr (protected_path path)) (if is_full mode then inl path else below) tt
        (Gives-if (is_full mode) path (inl path) below refl (
          Gives-if (path_starts_with path workspace) path inner outer
            (Gives-if (is_request mode && not (is_read intent)) path (answer true) (inl path)
              (given true) refl)
            (Gives-if (is_read intent) path refused (answer false) tt (given false))))

  -- An access to a path is allowed exactly as the table of the modes says for the path that
  -- resolve_path gives, and what is given out is that path. It is the requested one, taken from the
  -- workspace if it is relative, without `.` and `..`, and with its longest existing prefix replaced
  -- by what the file system says that prefix is without links; names behind it, for which the file
  -- system says that nothing exists (as for a link whose target is missing), stay as they are. It
  -- counts as protected exactly if it is under `.my-agent` of the workspace, a directory of the
  -- system, or one of the home that holds keys, or has a component `.git`; and as inside exactly if
  -- it is the workspace or below it. The answers of the user are those to the question about this
  -- very path and intent.
  pub authorize_path-is_allowed :
      (mode : SafetyMode) (intent : PathIntent) (requested : List Component) (path : List String)
      → resolve_path fs workspace requested ≡ inl path
      → (is_allowed (authorize_path fs workspace ask mode intent requested)
          ≡ path_permitted mode intent
              (is_protected_path fs workspace path)
              (path_starts_with path workspace)
              (λ inside. says_yes (ask (path_prompt intent inside path))))
        × Gives path (authorize_path fs workspace ask mode intent requested)
        × IsResolved fs (lexical_normalize (candidate workspace requested)) path
        × IsNormalizer lexical_normalize
        × Reflects (is_protected_path fs workspace path) (IsProtected fs workspace path)
        × Reflects (path_starts_with path workspace) (IsUnder path workspace)
  unfolding authorize_path
  authorize_path-is_allowed mode intent requested path h = (
    rw h (resolved-is_allowed mode intent path),
    rw h (resolved-Gives mode intent path),
    resolve_path-IsResolved fs workspace requested path h,
    lexical_normalize-IsNormalizer,
    is_protected_path-Reflects fs workspace path,
    path_starts_with-Reflects path workspace,
  )

  decision-is_allowed :
      (mode : SafetyMode) (command : List ℕ) (decision : CommandDecision)
      → is_allowed (authorize_decision fs workspace ask mode command decision)
        ≡ command_permitted mode decision
            (command_uses_network command)
            (says_yes (ask (network_prompt command)))
            (says_yes (ask (risk_prompt (reason_of decision) command)))
  decision-is_allowed full_access command allowed = refl
  decision-is_allowed risk_approval command allowed = refl
  decision-is_allowed request_approval command allowed =
      elim (Bool-cases (command_uses_network command)) [
        | inl h ↦ rw h (request-is_allowed tt (network_prompt command))
        | inr h ↦ rw h refl
      ]
  decision-is_allowed full_access command (blocked reason) = refl
  decision-is_allowed risk_approval command (blocked reason) = refl
  decision-is_allowed request_approval command (blocked reason) = refl
  decision-is_allowed full_access command (needs_approval reason) = refl
  decision-is_allowed risk_approval command (needs_approval reason) =
      request-is_allowed tt (risk_prompt reason command)
  decision-is_allowed request_approval command (needs_approval reason) =
      request-is_allowed tt (risk_prompt reason command)

  -- A command may run exactly as the table of the modes says for the class that classify_command
  -- gives it. So a command that is classified as blocked never runs, with full access and with the
  -- user's approval neither. One that is classified as risky runs with full access, and otherwise
  -- exactly if the user approves of the risk: whether it uses the network is not asked, in no mode.
  -- One that is classified as allowed runs without a question, but where everything is asked for and
  -- it uses the network, it runs exactly if the user approves of that.
  pub authorize_command-is_allowed :
      (mode : SafetyMode) (command : List ℕ)
      → is_allowed (authorize_command fs workspace ask mode command)
        ≡ command_permitted mode
            (classify_command command)
            (command_uses_network command)
            (says_yes (ask (network_prompt command)))
            (says_yes (ask (risk_prompt (reason_of (classify_command command)) command)))
  unfolding authorize_command
  authorize_command-is_allowed mode command =
      decision-is_allowed mode command (classify_command command)
