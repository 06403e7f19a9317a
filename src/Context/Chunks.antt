-- ===== src/Context/Chunks.antt =====
-- What the chunks of a text are (src/context.rs).
use dtcoder_test.Prelude.{
  ℕ, ◌+◌, ◌≤◌, ◌<◌, max, ◌≡◌, refl, sym, ◌∙◌, inl, inr, false, List, [], ◌∷◌, ◌++◌, length,
  length-append, arith, All, Bool-cases,
}
use mathlib.Core.List.{append_assoc, append-nil}
use dtcoder_test.Context.Tokens.{
  estimate_text_tokens, estimate-push, char_limit, is_full, last_chunk, split_from,
  split_for_token_budget, concat,
}

-- A chunk: it is not empty, and within both limits.
abbrev pub IsChunk : ℕ → List ℕ → Type 0
IsChunk budget t =
    (0 < length t) × (length t ≤ char_limit budget) × (estimate_text_tokens t ≤ max budget 1)

-- A chunk that has room for a character.
abbrev HasRoom : ℕ → List ℕ → Type 0
HasRoom budget t = (length t < char_limit budget) × (estimate_text_tokens t + 1 ≤ max budget 1)

empty-HasRoom : (budget : ℕ) → HasRoom budget []
unfolding estimate_text_tokens
empty-HasRoom budget = (ground arith, ground arith)

pushed-IsChunk :
    (budget : ℕ) (t : List ℕ) (c : ℕ) → HasRoom budget t → IsChunk budget (t ++ (c ∷ []))
pushed-IsChunk budget t c h =
    let l = length-append t (c ∷ []) in
    let e = estimate-push t c in (omega arith, omega (arith, h.0), omega (arith, h.1))

pushed-HasRoom :
    (budget : ℕ) (t : List ℕ) (c : ℕ)
    → is_full budget (t ++ (c ∷ [])) ≡ false
    → HasRoom budget (t ++ (c ∷ []))
pushed-HasRoom budget t c h = (ground arith, ground arith)

last_chunk-IsChunk :
    (budget : ℕ) (t : List ℕ) → HasRoom budget t → All (IsChunk budget) (last_chunk t)
last_chunk-IsChunk budget [] h = tt
last_chunk-IsChunk budget (c ∷ t) h = ((omega arith, omega (arith, h.0), omega (arith, h.1)), tt)

concat-last_chunk : (t : List ℕ) → concat (last_chunk t) ≡ t
concat-last_chunk [] = refl
concat-last_chunk (c ∷ t) = append-nil (c ∷ t)

split_from-IsChunk :
    (budget : ℕ) (current text : List ℕ)
    → HasRoom budget current
    → All (IsChunk budget) (split_from budget current text)
unfolding split_from
split_from-IsChunk budget current [] h = last_chunk-IsChunk budget current h
split_from-IsChunk budget current (c ∷ text) h =
    elim (Bool-cases (is_full budget (current ++ (c ∷ [])))) [
      | inl e ↦ rw e (
        pushed-IsChunk budget current c h,
        split_from-IsChunk budget [] text (empty-HasRoom budget),
      )
      | inr e ↦
          rw e (
            split_from-IsChunk budget (current ++ (c ∷ [])) text
              (pushed-HasRoom budget current c e))
    ]

concat-split_from :
    (budget : ℕ) (current text : List ℕ) → concat (split_from budget current text) ≡ current ++ text
unfolding split_from
concat-split_from budget current [] = concat-last_chunk current ∙ sym (append-nil current)
concat-split_from budget current (c ∷ text) =
    elim (Bool-cases (is_full budget (current ++ (c ∷ [])))) [
      | inl e ↦ rw (e, concat-split_from budget [] text) (append_assoc current (c ∷ []) text)
      | inr e ↦
          rw e (
            concat-split_from budget (current ++ (c ∷ [])) text
            ∙ append_assoc current (c ∷ []) text)
    ]

-- A text is cut into chunks that make it up again, in order and with nothing lost; no chunk is
-- empty, longer than the limit of characters, or estimated at more tokens than the budget (at more
-- than one token, where the budget is 0).
pub split-IsChunk :
    (budget : ℕ) (text : List ℕ)
    → (concat (split_for_token_budget budget text) ≡ text)
      × All (IsChunk budget) (split_for_token_budget budget text)
split-IsChunk budget text =
    (concat-split_from budget [] text, split_from-IsChunk budget [] text (empty-HasRoom budget))
