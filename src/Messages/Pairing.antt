-- ===== src/Messages/Pairing.antt =====
-- A history in which every tool call is answered (src/provider.rs): the messages right after the
-- calls of an assistant are their results, in the order of the calls.
use dtcoder_test.Prelude.{
  ℕ, zero, suc, ◌≡◌, refl, String, Bool, false, some, List, [], ◌∷◌, ◌++◌, drop, arith,
}
use dtcoder_test.Assembler.{ToolCall}
use dtcoder_test.Messages.{Role, system, user, assistant, tool, is_tool, Message}

module _ {V : Type 0} where
  abbrev pub ids : List (ToolCall V) → List String
  ids [] = []
  ids (call ∷ calls) = call.id ∷ ids calls

  -- Whether a message may stand where the calls `awaited` have no result yet.
  abbrev pub Fits : List String → Message V → Role → Type 0
  Fits [] m tool = ⊥
  Fits (id ∷ awaited) m tool = m.tool_call_id ≡ some id
  Fits awaited m other = awaited ≡ []

  -- The calls without a result after the message.
  abbrev pub awaited_after : List String → Message V → Role → List String
  awaited_after [] m tool = []
  awaited_after (id ∷ awaited) m tool = awaited
  awaited_after awaited m other = ids m.calls

  abbrev pub Awaits : List String → List (Message V) → List String → Type 0
  Awaits awaited [] last = awaited ≡ last
  Awaits awaited (m ∷ ms) last =
      Fits awaited m m.role × Awaits (awaited_after awaited m m.role) ms last

  -- Every call has its result.
  abbrev pub IsPaired : List (Message V) → Type 0
  IsPaired history = Awaits [] history []

  pub Awaits-append :
      (before middle after : List String) (front back : List (Message V))
      → Awaits before front middle
      → Awaits middle back after
      → Awaits before (front ++ back) after
  Awaits-append before middle after [] back f b = rw f b
  Awaits-append before middle after (m ∷ front) back f b =
      (f.0, Awaits-append (awaited_after before m m.role) middle after front back f.1 b)

  abbrev pub is_tool_at : ℕ → List (Message V) → Bool
  is_tool_at n [] = false
  is_tool_at zero (m ∷ ms) = is_tool m.role
  is_tool_at (suc n) (m ∷ ms) = is_tool_at n ms

  begins-IsPaired :
      (awaited after : List String) (m : Message V) (ms : List (Message V)) (role : Role)
      → is_tool role ≡ false
      → Fits awaited m role × Awaits (awaited_after awaited m role) ms after
      → Fits [] m role × Awaits (awaited_after [] m role) ms after
  begins-IsPaired awaited after m ms tool t h = absurd (ground arith)
  begins-IsPaired [] after m ms system t h = h
  begins-IsPaired [] after m ms user t h = h
  begins-IsPaired [] after m ms assistant t h = h
  begins-IsPaired (id ∷ awaited) after m ms system t h = absurd (ground (arith, h.0))
  begins-IsPaired (id ∷ awaited) after m ms user t h = absurd (ground (arith, h.0))
  begins-IsPaired (id ∷ awaited) after m ms assistant t h = absurd (ground (arith, h.0))

  -- What is left of a paired history after a cut in front of no tool result is paired.
  pub Awaits-drop :
      (n : ℕ) (awaited : List String) (history : List (Message V))
      → is_tool_at n history ≡ false
      → Awaits awaited history []
      → IsPaired (drop n history)
  Awaits-drop zero awaited [] t h = refl
  Awaits-drop zero awaited (m ∷ ms) t h = begins-IsPaired awaited [] m ms m.role t h
  Awaits-drop (suc n) awaited [] t h = refl
  Awaits-drop (suc n) awaited (m ∷ ms) t h = Awaits-drop n (awaited_after awaited m m.role) ms t h.1
