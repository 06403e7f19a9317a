-- ===== src/Assembler/Fragments.antt =====
-- The arguments of a call that src/tool_calls.rs receives in fragments.
use dtcoder_test.Prelude.{
  ◌≡◌, refl, ◌⊎◌, inl, String, Bool, true, false, none, some, List, [], ◌∷◌, ◌++◌, map,
  if◌then◌else◌, str_eq_refl,
}
use dtcoder_test.Prelude.Text.{is_blank}
use dtcoder_test.Prelude.Dict.{lookup, insert}
use Prim.Native.String.{◌++◌ as text_append}
use dtcoder_test.Assembler.{
  append, ProviderEvent, tool_call_started, tool_call_delta, tool_call_completed, ToolCallAssembler,
  default, accept, accept_all, tool_calls, output_calls, finish,
}

-- The text before, and the fragments after it, one after the other.
abbrev pub joined : String → List String → String
joined text [] = text
joined text (f ∷ fs) = joined (text_append text f) fs

abbrev pub deltas : String → List String → List ProviderEvent
deltas id = map (λ f. tool_call_delta id (append f))

-- The state of a stream with one call, whose arguments are `text` so far.
abbrev receiving : String → String → String → Bool → ToolCallAssembler
receiving id name text completed = record {
  text = "";
  calls =
      (id, record { name = name; arguments = text; snapshot_seen = false; completed = completed })
      ∷ [];
  order = id ∷ [];
  failure = none;
  output_truncated = false;
}

accept-started :
    (id name : String)
    → is_blank name ≡ false
    → (accept (tool_call_started id name) default).0 ≡ receiving id name "" false
unfolding accept lookup insert
accept-started id name h = rw h refl

lookup-head : {V : Type 0} (id : String) (v : V) → lookup id ((id, v) ∷ []) ≡ some v
unfolding lookup
lookup-head id v = rw (str_eq_refl id) refl

insert-head : {V : Type 0} (id : String) (v w : V) → insert id w ((id, v) ∷ []) ≡ (id, w) ∷ []
unfolding insert
insert-head id v w = rw (str_eq_refl id) refl

accept-delta :
    (id name text f : String)
    → (accept (tool_call_delta id (append f)) (receiving id name text false)).0
      ≡ receiving id name (text_append text f) false
unfolding accept
accept-delta id name text f = rw (lookup-head, insert-head) refl

accept-completed :
    (id name text : String)
    → (accept (tool_call_completed id) (receiving id name text false)).0
      ≡ receiving id name text true
unfolding accept
accept-completed id name text = rw (lookup-head, insert-head) refl

accept_all-deltas :
    (id name text : String) (fs : List String) (rest : List ProviderEvent)
    → accept_all (deltas id fs ++ rest) (receiving id name text false)
      ≡ accept_all rest (receiving id name (joined text fs) false)
unfolding accept_all
accept_all-deltas id name text [] rest = refl
accept_all-deltas id name text (f ∷ fs) rest =
    rw (accept_all, accept-delta id name text f)
      (accept_all-deltas id name (text_append text f) fs rest)

module _ {V : Type 0} (parse : String → V ⊎ String) (empty_object : V) where
  -- A call whose arguments arrive in any fragments gives that one call, with the value of the
  -- fragments put together in order; where they are blank, the empty object.
  pub stream-fragments :
      (id name : String) (fs : List String) (value : V)
      → is_blank name ≡ false
      → (if is_blank (joined "" fs) then inl empty_object else parse (joined "" fs)) ≡ inl value
      → finish parse empty_object (
          accept_all
            (tool_call_started id name ∷ (deltas id fs ++ (tool_call_completed id ∷ [])))
            default)
        ≡ tool_calls (record { id = id; name = name; arguments = value } ∷ [])
  unfolding accept_all finish output_calls
  stream-fragments id name fs value named parsed =
      rw (accept_all, accept-started id name named)
        (rw (accept_all-deltas id name "" fs (tool_call_completed id ∷ [])) (
          rw (accept_all, accept-completed id name (joined "" fs))
            (rw (lookup-head, output_calls, lookup-head, parsed) refl)))
