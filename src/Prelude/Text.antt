-- ===== src/Prelude/Text.antt =====
-- Text by its code points: white space, `trim`, and the tests for blank text that the program makes.
use Prim.Native.Nat.{ℕ}
use Prim.Native.Char.{code}
use Prim.Native.String.{String}
use mathlib.Core.Bool.{Bool, true, false, ◌&&◌, ◌||◌}
use mathlib.Core.List.{List, [], ◌∷◌, reverse}
use dtcoder_test.Prelude.Tests.{leb, ◌==◌, if◌then◌else◌}

abbrev pub codes : String → List ℕ
codes String.[] = []
codes (String.◌∷◌ c s) = code c ∷ codes s

-- `char::is_whitespace`: the property White_Space of Unicode.
abbrev pub is_whitespace : ℕ → Bool
is_whitespace c =
    (leb 9 c && leb c 13)
    || c == 32
    || c == 0x85
    || c == 0xA0
    || c == 0x1680
    || (leb 0x2000 c && leb c 0x200A)
    || c == 0x2028
    || c == 0x2029
    || c == 0x202F
    || c == 0x205F
    || c == 0x3000

abbrev pub trim_start : List ℕ → List ℕ
trim_start [] = []
trim_start (c ∷ cs) = let rest = trim_start cs in if is_whitespace c then rest else c ∷ cs

abbrev pub trim : List ℕ → List ℕ
trim cs = reverse (trim_start (reverse (trim_start cs)))

abbrev pub all_whitespace : List ℕ → Bool
all_whitespace [] = true
all_whitespace (c ∷ cs) = is_whitespace c && all_whitespace cs

-- `text.trim().is_empty()`
unfoldable pub is_blank : String → Bool
is_blank s = all_whitespace (codes s)

abbrev pub is_empty_text : String → Bool
is_empty_text String.[] = true
is_empty_text (String.◌∷◌ c s) = false
