-- ===== src/Examples/Safety.antt =====
-- The theorems on the safety policy and the approvals at a small workspace.
use dtcoder_test.Prelude.{◌≡◌, refl, Bool, true, ◌⊎◌, inl, String, none, some, List, [], ◌∷◌}
use dtcoder_test.Prelude.Text.{codes}
use dtcoder_test.Approvals.{number, answered, respond_claimed, stop_waiting}
use dtcoder_test.Approvals.Traces.{
  Call, request_call, respond_call, stop_call, perform_all, IsConsistent, perform_all-IsConsistent,
}
use dtcoder_test.Safety.Commands.{
  classify_command, command_uses_network, contains_program, is_catastrophic_rm, targets_root,
}
use dtcoder_test.Safety.Words.{contains, split_at}
use dtcoder_test.Safety.Paths.{
  Component, normal, parent_dir, FileSystem, resolve_path, resolve_reversed, normalize_from,
  path_starts_with, is_protected_path, candidate, lexical_normalize,
}
use dtcoder_test.Safety.Paths.Resolved.{IsResolved, IsNormalizer}
use dtcoder_test.Safety.Paths.Protected.{Reflects, IsUnder, IsProtected}
use dtcoder_test.Safety.Values.{Value, string, object, no_fields, field, array, item, no_items}
use dtcoder_test.Safety.Policy.{
  write, request_approval, risk_approval, full_access, Prompt, path_prompt, network_prompt,
  risk_prompt, authorize_path, authorize_command, inspect, inspect_items, inspect_fields,
  authorize_external_action,
}
use dtcoder_test.Safety.Permits.{
  says_yes, is_allowed, path_permitted, command_permitted, reason_of, Gives,
  authorize_path-is_allowed, authorize_command-is_allowed,
}
use dtcoder_test.Safety.External.{IsClean, IsApproved, authorize_external_action-IsClean}

abbrev workspace : List String
workspace = "home" ∷ "me" ∷ "project" ∷ []

abbrev fs : FileSystem
fs = record {
  exists = λ path. path_starts_with workspace path;
  canonicalize = λ path. some path;
  home = some ("home" ∷ "me" ∷ []);
}

abbrev ask : Prompt → Bool ⊎ String
ask prompt = inl true

abbrev outside : List Component
outside = parent_dir ∷ normal "notes" ∷ []

outside_resolves : resolve_path fs workspace outside ≡ inl ("home" ∷ "me" ∷ "notes" ∷ [])
unfolding resolve_path normalize_from resolve_reversed path_starts_with
outside_resolves = refl

authorize_path-is_allowed_example :
    (is_allowed (authorize_path fs workspace ask risk_approval write outside)
      ≡ path_permitted risk_approval write
          (is_protected_path fs workspace ("home" ∷ "me" ∷ "notes" ∷ []))
          (path_starts_with ("home" ∷ "me" ∷ "notes" ∷ []) workspace)
          (λ inside. says_yes (ask (path_prompt write inside ("home" ∷ "me" ∷ "notes" ∷ [])))))
    × Gives
        ("home" ∷ "me" ∷ "notes" ∷ [])
        (authorize_path fs workspace ask risk_approval write outside)
    × IsResolved fs (lexical_normalize (candidate workspace outside)) ("home" ∷ "me" ∷ "notes" ∷ [])
    × IsNormalizer lexical_normalize
    × Reflects
        (is_protected_path fs workspace ("home" ∷ "me" ∷ "notes" ∷ []))
        (IsProtected fs workspace ("home" ∷ "me" ∷ "notes" ∷ []))
    × Reflects
        (path_starts_with ("home" ∷ "me" ∷ "notes" ∷ []) workspace)
        (IsUnder ("home" ∷ "me" ∷ "notes" ∷ []) workspace)
authorize_path-is_allowed_example =
    authorize_path-is_allowed fs workspace ask risk_approval write outside
      ("home" ∷ "me" ∷ "notes" ∷ []) outside_resolves

authorize_command-is_allowed_example :
    is_allowed (authorize_command fs workspace ask full_access (codes "rm -rf /"))
    ≡ command_permitted full_access
        (classify_command (codes "rm -rf /"))
        (command_uses_network (codes "rm -rf /"))
        (says_yes (ask (network_prompt (codes "rm -rf /"))))
        (says_yes
          (ask (risk_prompt (reason_of (classify_command (codes "rm -rf /"))) (codes "rm -rf /"))))
authorize_command-is_allowed_example =
    authorize_command-is_allowed fs workspace ask full_access (codes "rm -rf /")

abbrev arguments : Value
arguments =
    object (field (codes "Command") (array (item (string (codes "kill 3")) no_items)) no_fields)

arguments_allowed :
    is_allowed
      (authorize_external_action fs workspace (λ text. []) ask request_approval "tool" arguments)
    ≡ true
unfolding authorize_external_action inspect inspect_items inspect_fields classify_command
    contains_program is_catastrophic_rm targets_root contains split_at
arguments_allowed = refl

authorize_external_action-IsClean_example :
    IsClean arguments none
    × IsApproved fs workspace
        (λ text. [])
        ask
        request_approval
        "tool"
        arguments
        (inspect fs workspace (λ text. []) ask arguments none [])
authorize_external_action-IsClean_example =
    authorize_external_action-IsClean fs workspace (λ text. []) ask request_approval "tool"
      arguments arguments_allowed

abbrev calls : List Call
calls =
    stop_call 1
    ∷ respond_call 0 true true
    ∷ request_call (number 7) (some "s") true
    ∷ request_call (number 7) none true
    ∷ []

perform_all-IsConsistent_example :
    IsConsistent (perform_all calls) 0
    × ((call : Call) (answer : Bool)
        → (perform_all calls).waiter 0 ≡ answered answer
        → (perform_all (call ∷ calls)).waiter 0 ≡ answered answer)
perform_all-IsConsistent_example = perform_all-IsConsistent calls 0

first_answered : (perform_all calls).waiter 0 ≡ answered true
unfolding perform_all respond_claimed stop_waiting
first_answered = refl
