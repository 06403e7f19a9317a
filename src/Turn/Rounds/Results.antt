-- ===== src/Turn/Rounds/Results.antt =====
-- The results of a round's calls (src/loop_engine.rs): they answer the calls, in their order.
use dtcoder_test.Prelude.{
  ℕ, ◌+◌, ◌≡◌, refl, ◌⊎◌, inl, inr, String, Option, none, some, List, [], ◌∷◌,
}
use dtcoder_test.Assembler.{ToolCall}
use dtcoder_test.Messages.{tool}
use dtcoder_test.Messages.Pairing.{IsPaired}
use dtcoder_test.Turn.Waves.{cons_result, collect}
use dtcoder_test.Turn.Rounds.{ToolOutput, ToolExecution, Engine}
use dtcoder_test.Turn.Rounds.Calls.{executed, or_error, execute_one}

-- A tool gives messages in which no call waits for a result.
abbrev pub GivesPaired : {V : Type 0} → ToolOutput V ⊎ String → Type 0
GivesPaired (inl output) = IsPaired output.transient_messages
GivesPaired (inr error) = Unit

-- The results of the calls, in their order.
abbrev pub Results : {V : Type 0} → List (ToolCall V) → List (ToolExecution V) → Type 0
Results [] [] = Unit
Results [] (r ∷ rs) = ⊥
Results (c ∷ cs) [] = ⊥
Results (c ∷ cs) (r ∷ rs) =
    (r.message.role ≡ tool)
    × (r.message.tool_call_id ≡ some c.id)
    × IsPaired r.transient_messages
    × Results cs rs

abbrev pub OnResults : {V : Type 0} → List (ToolCall V) → List (ToolExecution V) ⊎ String → Type 0
OnResults cs (inl rs) = Results cs rs
OnResults cs (inr error) = Unit

abbrev pub OnResult : {V : Type 0} → ToolCall V → ToolExecution V ⊎ String → Type 0
OnResult c (inl r) =
    (r.message.role ≡ tool) × (r.message.tool_call_id ≡ some c.id) × IsPaired r.transient_messages
OnResult c (inr error) = Unit

module _ {V : Type 0} (e : Engine V) where
  executed-OnResult :
      (c : ToolCall V) (r : ToolOutput V ⊎ String)
      → GivesPaired r
      → OnResult c (inl (executed e c r))
  executed-OnResult c (inl output) h = (refl, refl, h)
  executed-OnResult c (inr error) h = (refl, refl, refl)

  or_error-OnResult :
      (c : ToolCall V) (error : Option String) (r : ToolExecution V ⊎ String)
      → OnResult c r
      → OnResult c (or_error e error r)
  or_error-OnResult c none r h = h
  or_error-OnResult c (some error) r h = tt

  cons-OnResults :
      (c : ToolCall V) (cs : List (ToolCall V)) (r : ToolExecution V ⊎ String)
      (rs : List (ToolExecution V) ⊎ String)
      → OnResult c r
      → OnResults cs rs
      → OnResults (c ∷ cs) (cons_result r rs)
  cons-OnResults c cs (inr error) rs h k = tt
  cons-OnResults c cs (inl r) (inr error) h k = tt
  cons-OnResults c cs (inl r) (inl rs) h k = (h.0, h.1, h.2, k)

  pub collect-OnResults :
      ((round i : ℕ) (c : ToolCall V) → GivesPaired (e.execute round i c))
      → (round i : ℕ) (cs : List (ToolCall V))
      → OnResults cs
          (collect (λ (c : ToolCall V). e.is_read_only c.name) (execute_one e round) i cs)
  collect-OnResults g round i [] = tt
  collect-OnResults g round i (c ∷ cs) =
      cons-OnResults c cs (execute_one e round i c) _
        (or_error-OnResult c (e.start_tool_error round i) _ (
          or_error-OnResult c (e.finish_tool_error round i) _
            (executed-OnResult c (e.execute round i c) (g round i c))))
        (collect-OnResults g round (i + 1) cs)
