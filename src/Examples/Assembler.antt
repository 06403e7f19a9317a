-- ===== src/Examples/Assembler.antt =====
-- The theorems on src/tool_calls.rs at concrete streams.
use dtcoder_test.Prelude.{
  ◌≡◌, ◌⊎◌, inl, refl, String, false, none, some, List, [], ◌∷◌, ◌++◌, map, if◌then◌else◌,
}
use dtcoder_test.Prelude.Text.{is_blank}
use dtcoder_test.Prelude.Dict.{lookup, insert}
use dtcoder_test.Assembler.{
  ToolCallStreamError, ProviderEvent, response_started, tool_call_started, tool_call_completed,
  default, accept, accept_all, ToolCall, tool_calls, tool_assembly_failed, first_incomplete, finish,
  output_calls,
}
use dtcoder_test.Assembler.Laws.{starts, finish-first_failure, stream-tool_calls}
use dtcoder_test.Assembler.Fragments.{joined, deltas, stream-fragments}

-- Every text is a value, and stands for itself.
abbrev itself : String → String ⊎ String
itself text = inl text

abbrev two_calls : List ProviderEvent
two_calls =
    response_started
    ∷ tool_call_started "b" "read"
    ∷ tool_call_started "a" "list"
    ∷ tool_call_completed "a"
    ∷ tool_call_completed "b"
    ∷ []

abbrev two_outputs : List (ToolCall String)
two_outputs =
    record { id = "b"; name = "read"; arguments = "{}" }
    ∷ record { id = "a"; name = "list"; arguments = "{}" }
    ∷ []

two_calls-finish : finish itself "{}" (accept_all two_calls default) ≡ tool_calls two_outputs
unfolding finish accept_all accept lookup insert is_blank output_calls
two_calls-finish = refl

stream-tool_calls_example :
    (map (λ c. c.id) two_outputs ≡ starts two_calls)
    × (first_incomplete (starts two_calls) (accept_all two_calls default).calls ≡ none)
    × ((accept_all two_calls default).failure ≡ none)
stream-tool_calls_example = stream-tool_calls itself "{}" two_calls two_outputs two_calls-finish

abbrev error : ToolCallStreamError
error = record { code = "complete_without_start"; message = "工具完成事件没有对应开始：a" }

abbrev broken : List ProviderEvent
broken = tool_call_completed "a" ∷ []

broken_failure : (accept_all broken default).failure ≡ some error
unfolding accept_all accept lookup
broken_failure = refl

finish-first_failure_example :
    finish itself "{}" (accept_all two_calls (accept_all broken default))
    ≡ tool_assembly_failed error
finish-first_failure_example =
    finish-first_failure itself "{}" broken two_calls error broken_failure

name_given : is_blank "read" ≡ false
unfolding is_blank
name_given = refl

joined_value :
    (if is_blank (joined "" ("{\"a\":" ∷ "1}" ∷ []))
      then inl "{}"
      else itself (joined "" ("{\"a\":" ∷ "1}" ∷ [])))
    ≡ inl "{\"a\":1}"
unfolding is_blank
joined_value = refl

stream-fragments_example :
    finish itself "{}" (
      accept_all
        (tool_call_started "x" "read"
          ∷ (deltas "x" ("{\"a\":" ∷ "1}" ∷ []) ++ (tool_call_completed "x" ∷ [])))
        default)
    ≡ tool_calls (record { id = "x"; name = "read"; arguments = "{\"a\":1}" } ∷ [])
stream-fragments_example =
    stream-fragments itself "{}" "x" "read" ("{\"a\":" ∷ "1}" ∷ []) "{\"a\":1}" name_given
      joined_value
