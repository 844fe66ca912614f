-- ===== src/Base/Pattern.antt =====
-- Parts of the regular expressions that the scripts share. A text is its list of code points.
use inventory_cloud_service.Base.Lists.{any}
use inventory_cloud_service.Base.Tests.{ltb, leb, ◌==◌, nat_eq, if◌then◌else◌}
use mathlib.Core.Bool.{Bool, ◌&&◌, ◌||◌}
use mathlib.Core.List.{List, [], ◌∷◌}
use mathlib.Core.Option.{Option, none, some}
use Prim.Native.Nat.{ℕ, zero, suc, ◌+◌}

-- The zeros of the decimal digits of Unicode (version 14.0.0), each followed by its one to nine.
abbrev pub digit_zeros : List ℕ
digit_zeros =
    0x30 ∷ 0x660 ∷ 0x6f0 ∷ 0x7c0 ∷ 0x966 ∷ 0x9e6 ∷ 0xa66 ∷ 0xae6 ∷ 0xb66 ∷ 0xbe6 ∷ 0xc66 ∷ 0xce6
    ∷ 0xd66 ∷ 0xde6 ∷ 0xe50 ∷ 0xed0 ∷ 0xf20 ∷ 0x1040 ∷ 0x1090 ∷ 0x17e0 ∷ 0x1810 ∷ 0x1946 ∷ 0x19d0
    ∷ 0x1a80 ∷ 0x1a90 ∷ 0x1b50 ∷ 0x1bb0 ∷ 0x1c40 ∷ 0x1c50 ∷ 0xa620 ∷ 0xa8d0 ∷ 0xa900 ∷ 0xa9d0
    ∷ 0xa9f0 ∷ 0xaa50 ∷ 0xabf0 ∷ 0xff10 ∷ 0x104a0 ∷ 0x10d30 ∷ 0x11066 ∷ 0x110f0 ∷ 0x11136 ∷ 0x111d0
    ∷ 0x112f0 ∷ 0x11450 ∷ 0x114d0 ∷ 0x11650 ∷ 0x116c0 ∷ 0x11730 ∷ 0x118e0 ∷ 0x11950 ∷ 0x11c50
    ∷ 0x11d50 ∷ 0x11da0 ∷ 0x16a60 ∷ 0x16ac0 ∷ 0x16b50 ∷ 0x1d7ce ∷ 0x1d7d8 ∷ 0x1d7e2 ∷ 0x1d7ec
    ∷ 0x1d7f6 ∷ 0x1e140 ∷ 0x1e2f0 ∷ 0x1e950 ∷ 0x1fbf0 ∷ []

-- `\d` in a pattern for `str`: every decimal digit of Unicode.
unfoldable pub is_digit : ℕ → Bool
is_digit c = any (λ z. leb z c && ltb c (z + 10)) digit_zeros

-- `[a-z0-9]`
unfoldable pub is_lower_alnum : ℕ → Bool
is_lower_alnum c = (leb b'a' c && leb c b'z') || (leb b'0' c && leb c b'9')

-- `[a-f0-9]`
unfoldable pub is_hex : ℕ → Bool
is_hex c = (leb b'a' c && leb c b'f') || (leb b'0' c && leb c b'9')

-- The rest of a text behind a literal.
abbrev pub after_literal : List ℕ → List ℕ → Option (List ℕ)
after_literal [] s = some s
after_literal (p ∷ ps) [] = none
after_literal (p ∷ ps) (c ∷ s) = let rest = after_literal ps s in if p == c then rest else none

-- The rest of a text behind n characters of a class.
abbrev pub after_count : (ℕ → Bool) → ℕ → List ℕ → Option (List ℕ)
after_count p zero s = some s
after_count p (suc n) [] = none
after_count p (suc n) (c ∷ s) = let rest = after_count p n s in if p c then rest else none

-- The rest of a text behind all leading characters of a class.
abbrev pub after_all : (ℕ → Bool) → List ℕ → List ℕ
after_all p [] = []
after_all p (c ∷ s) = let rest = after_all p s in if p c then rest else c ∷ s

-- The same, where one character at least has to be there.
abbrev pub after_some : (ℕ → Bool) → List ℕ → Option (List ℕ)
after_some p [] = none
after_some p (c ∷ s) = if p c then some (after_all p s) else none
