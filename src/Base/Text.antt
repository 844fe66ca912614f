-- ===== src/Base/Text.antt =====
-- What the scripts use of Python's `str`: `split`, `strip`, `splitlines` by blank separation,
-- `in`, and the classes of characters.
use Prim.Native.Nat.{ℕ, zero, suc}
use Prim.Native.Char.{Char, code}
use Prim.Native.String.{String, ◌++◌ as ◌<>◌}
use mathlib.Core.Bool.{Bool, true, false, ◌&&◌, ◌||◌}
use mathlib.Core.Option.{none, some}
use mathlib.Core.List.{List, [], ◌∷◌}
use text.Mathlib.Text.{find?}
use inventory_cloud_service.Base.Tests.{leb, ◌==◌, nat_eq, if◌then◌else◌}

-- The code points of a text.
abbrev pub codes : String → List ℕ
codes String.[] = []
codes (String.◌∷◌ c s) = code c ∷ codes s

abbrev pub is_empty : String → Bool
is_empty String.[] = true
is_empty (String.◌∷◌ c s) = false

-- `str.isspace` on one character.
unfoldable pub is_space : ℕ → Bool
is_space c =
    (leb 9 c && leb c 13)
    || (leb 28 c && leb c 32)
    || c == 0x85
    || c == 0xa0
    || c == 0x1680
    || (leb 0x2000 c && leb c 0x200a)
    || c == 0x2028
    || c == 0x2029
    || c == 0x202f
    || c == 0x205f
    || c == 0x3000

abbrev single : Char → String
single c = String.◌∷◌ c String.[]

abbrev flush : String → List String → List String
flush w rest = if is_empty w then rest else w ∷ rest

split_from : String → String → List String
split_from w String.[] = flush w []
split_from w (String.◌∷◌ c s) =
    let next = split_from String.[] s in
    let more = split_from (w <> single c) s in if is_space (code c) then flush w next else more

-- `s.split()`
unfoldable pub split : String → List String
unfolding split_from is_space
split s = split_from String.[] s

unfoldable pub lstrip : String → String
unfolding is_space
lstrip String.[] = String.[]
lstrip (String.◌∷◌ c s) = let rest = lstrip s in if is_space (code c) then rest else String.◌∷◌ c s

unfoldable pub rstrip : String → String
unfolding is_space
rstrip String.[] = String.[]
rstrip (String.◌∷◌ c s) =
    let rest = rstrip s in
    if is_empty rest && is_space (code c) then String.[] else String.◌∷◌ c rest

-- `s.strip()`
unfoldable pub strip : String → String
unfolding lstrip rstrip
strip s = rstrip (lstrip s)

-- `part in whole`
abbrev pub occurs_in : String → String → Bool
occurs_in part whole = elim (find? whole part) [ none ↦ false | some _ ↦ true ]

-- `s[:n]`
unfoldable pub first_characters : ℕ → String → String
first_characters zero s = String.[]
first_characters (suc n) String.[] = String.[]
first_characters (suc n) (String.◌∷◌ c s) = String.◌∷◌ c (first_characters n s)

-- The characters that end a line for `str.splitlines`; a carriage return takes a line feed along.
unfoldable pub is_line_end : ℕ → Bool
is_line_end c =
    (leb 10 c && leb c 13) || (leb 28 c && leb c 30) || c == 0x85 || c == 0x2028 || c == 0x2029

lines_from : String → Bool → String → List String
lines_from w after_return String.[] = flush w []
lines_from w after_return (String.◌∷◌ c s) =
    let next = lines_from String.[] (code c == 13) s in
    let more = lines_from (w <> single c) false s in
    let skipped = lines_from String.[] false s in
    if after_return && code c == 10
    then skipped
    else if is_line_end (code c)
    then w ∷ next
    else more

-- `s.splitlines()`
unfoldable pub splitlines : String → List String
unfolding lines_from is_line_end
splitlines s = lines_from String.[] false s
