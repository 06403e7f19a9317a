-- ===== src/Context/Tokens.antt =====
-- src/context.rs: how many tokens a text is taken to have, and a text cut to a budget of tokens
-- (`estimate_text_tokens`, `split_for_token_budget`, `truncate_chars`). A text is the list of its
-- code points; `usize` has 64 bits.
use dtcoder_test.Prelude.{
  ℕ, ◌+◌, ◌*◌, ◌/◌, ◌≤◌, max, ◌≡◌, inl, inr, Bool, ◌||◌, ◌&&◌, List, [], ◌∷◌, ◌++◌, if◌then◌else◌,
  ltb, leb, length, take, arith, Bool-cases, u64_max, cap_at,
}
use dtcoder_test.Prelude.Text.{codes}

abbrev pub is_cjk : ℕ → Bool
is_cjk c =
    (leb 0x3400 c && leb c 0x4DBF)
    || (leb 0x4E00 c && leb c 0x9FFF)
    || (leb 0xF900 c && leb c 0xFAFF)

abbrev pub count_cjk : List ℕ → ℕ
count_cjk [] = 0
count_cjk (c ∷ cs) = (if is_cjk c then 1 else 0) + count_cjk cs

abbrev pub count_other : List ℕ → ℕ
count_other [] = 0
count_other (c ∷ cs) = (if is_cjk c then 0 else 1) + count_other cs

-- `cjk.saturating_mul(2).div_ceil(3) + other.div_ceil(4)`
abbrev pub tokens_of : ℕ → ℕ → ℕ
tokens_of cjk other = (cap_at u64_max (cjk * 2) + 2) / 3 + (other + 3) / 4

unfoldable pub estimate_text_tokens : List ℕ → ℕ
estimate_text_tokens text = tokens_of (count_cjk text) (count_other text)

-- `budget.saturating_mul(3).max(1)`
abbrev pub char_limit : ℕ → ℕ
char_limit budget = max (cap_at u64_max (budget * 3)) 1

abbrev pub is_full : ℕ → List ℕ → Bool
is_full budget current =
    leb (char_limit budget) (length current) || leb budget (estimate_text_tokens current)

abbrev pub last_chunk : List ℕ → List (List ℕ)
last_chunk [] = []
last_chunk (c ∷ cs) = (c ∷ cs) ∷ []

-- The loop over the characters, with the chunk that it is filling.
unfoldable pub split_from : ℕ → List ℕ → List ℕ → List (List ℕ)
split_from budget current [] = last_chunk current
split_from budget current (c ∷ cs) =
    let pushed = current ++ (c ∷ []) in
    let full = is_full budget pushed in
    let rest = split_from budget (if full then [] else pushed) cs in
    if full then pushed ∷ rest else rest

abbrev pub split_for_token_budget : ℕ → List ℕ → List (List ℕ)
split_for_token_budget budget text = split_from budget [] text

abbrev pub truncate_chars : ℕ → List ℕ → List ℕ
truncate_chars limit text =
    if ltb limit (length text) then take limit text ++ codes "…[摘要已截断]" else text

abbrev pub concat : List (List ℕ) → List ℕ
concat [] = []
concat (t ∷ ts) = t ++ concat ts

tokens_of-step-cjk : (m n : ℕ) → tokens_of (m + 1) n ≤ tokens_of m n + 1
tokens_of-step-cjk m n = ground arith

tokens_of-step-other : (m n : ℕ) → tokens_of m (n + 1) ≤ tokens_of m n + 1
tokens_of-step-other m n = ground arith

count_cjk-push :
    (t : List ℕ) (c : ℕ) → count_cjk (t ++ (c ∷ [])) ≡ count_cjk t + (if is_cjk c then 1 else 0)
count_cjk-push [] c = ground arith
count_cjk-push (d ∷ t) c = let ih = count_cjk-push t c in ground arith

count_other-push :
    (t : List ℕ) (c : ℕ) → count_other (t ++ (c ∷ [])) ≡ count_other t + (if is_cjk c then 0 else 1)
count_other-push [] c = ground arith
count_other-push (d ∷ t) c = let ih = count_other-push t c in ground arith

-- One more character is one more token at most.
pub estimate-push :
    (t : List ℕ) (c : ℕ) → estimate_text_tokens (t ++ (c ∷ [])) ≤ estimate_text_tokens t + 1
unfolding estimate_text_tokens
estimate-push t c = elim (Bool-cases (is_cjk c)) [
  | inl e ↦
      let m : count_cjk (t ++ (c ∷ [])) ≡ count_cjk t + 1 = ground (arith, count_cjk-push t c, e) in
      let n : count_other (t ++ (c ∷ [])) ≡ count_other t =
        ground (arith, count_other-push t c, e) in
      rw (m, n) (tokens_of-step-cjk (count_cjk t) (count_other t))
  | inr e ↦
      let m : count_cjk (t ++ (c ∷ [])) ≡ count_cjk t = ground (arith, count_cjk-push t c, e) in
      let n : count_other (t ++ (c ∷ [])) ≡ count_other t + 1 =
        ground (arith, count_other-push t c, e) in
      rw (m, n) (tokens_of-step-other (count_cjk t) (count_other t))
]
