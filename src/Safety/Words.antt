-- ===== src/Safety/Words.antt =====
-- The methods of `str` that src/safety.rs uses, on texts by their code points.
use dtcoder_test.Prelude.{
  ℕ, ◌+◌, Bool, true, false, ◌&&◌, ◌||◌, List, [], ◌∷◌, ◌++◌, if◌then◌else◌, leb, ◌==◌, String,
}
use mathlib.Core.List.{reverse}
use dtcoder_test.Prelude.Text.{codes, is_whitespace}

abbrev pub text_eq : List ℕ → List ℕ → Bool
text_eq [] [] = true
text_eq [] (d ∷ ds) = false
text_eq (c ∷ cs) [] = false
text_eq (c ∷ cs) (d ∷ ds) = c == d && text_eq cs ds

abbrev pub is_one_of : List ℕ → List String → Bool
is_one_of text [] = false
is_one_of text (s ∷ ss) = text_eq text (codes s) || is_one_of text ss

abbrev pub lower : ℕ → ℕ
lower c = if leb 65 c && leb c 90 then c + 32 else c

abbrev pub to_ascii_lowercase : List ℕ → List ℕ
to_ascii_lowercase [] = []
to_ascii_lowercase (c ∷ cs) = lower c ∷ to_ascii_lowercase cs

abbrev pub starts_with : List ℕ → List ℕ → Bool
starts_with [] text = true
starts_with (p ∷ ps) [] = false
starts_with (p ∷ ps) (c ∷ cs) = p == c && starts_with ps cs

abbrev pub ends_with : List ℕ → List ℕ → Bool
ends_with pattern text = starts_with (reverse pattern) (reverse text)

unfoldable pub contains : List ℕ → List ℕ → Bool
contains pattern [] = starts_with pattern []
contains pattern (c ∷ cs) = let later = contains pattern cs in starts_with pattern (c ∷ cs) || later

-- A text without the characters of a kind.
abbrev pub remove : (ℕ → Bool) → List ℕ → List ℕ
remove drops [] = []
remove drops (c ∷ cs) = let rest = remove drops cs in if drops c then rest else c ∷ rest

-- `split`, with the part that is being read.
unfoldable pub split_at : (ℕ → Bool) → List ℕ → List ℕ → List (List ℕ)
split_at separates part [] = part ∷ []
split_at separates part (c ∷ cs) =
    let rest = split_at separates (if separates c then [] else part ++ (c ∷ [])) cs in
    if separates c then part ∷ rest else rest

abbrev pub not_empty : List (List ℕ) → List (List ℕ)
not_empty [] = []
not_empty ([] ∷ words) = not_empty words
not_empty ((c ∷ cs) ∷ words) = (c ∷ cs) ∷ not_empty words

abbrev pub split_whitespace : List ℕ → List (List ℕ)
split_whitespace text = not_empty (split_at is_whitespace [] text)

-- `join(" ")`
abbrev pub join_words : List (List ℕ) → List ℕ
join_words [] = []
join_words (w ∷ []) = w
join_words (w ∷ v ∷ words) = w ++ (32 ∷ join_words (v ∷ words))

abbrev pub trim_start_matches : (ℕ → Bool) → List ℕ → List ℕ
trim_start_matches drops [] = []
trim_start_matches drops (c ∷ cs) =
    let rest = trim_start_matches drops cs in if drops c then rest else c ∷ cs

abbrev pub trim_matches : (ℕ → Bool) → List ℕ → List ℕ
trim_matches drops text =
    reverse (trim_start_matches drops (reverse (trim_start_matches drops text)))

-- `rsplit('/').next()`, with the part that is being read.
abbrev pub base_name : List ℕ → List ℕ → List ℕ
base_name part [] = part
base_name part (c ∷ cs) = base_name (if c == 47 then [] else part ++ (c ∷ [])) cs

abbrev pub is_any : ℕ → List ℕ → Bool
is_any c [] = false
is_any c (d ∷ ds) = c == d || is_any c ds
