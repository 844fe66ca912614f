-- ===== src/Base/Regex.antt =====
-- Regular expressions over code points, matched as `fullmatch` does, by derivatives.
use Prim.Native.Nat.{ℕ, zero, suc}
use mathlib.Core.Bool.{Bool, true, false, ◌&&◌, ◌||◌}
use mathlib.Core.List.{List, [], ◌∷◌}
use Prim.Native.String.{String}
use inventory_cloud_service.Base.Tests.{◌==◌, nat_eq, if◌then◌else◌}
use inventory_cloud_service.Base.Text.{codes}

pub data Regex : Type 0 where
  never done : Regex
  -- One character of a class.
  one : (ℕ → Bool) → Regex
  -- The first, and then the second.
  chain : Regex → Regex → Regex
  either : Regex → Regex → Regex
  -- Any number of times.
  many : Regex → Regex

abbrev pub accepts_nothing_more : Regex → Bool
accepts_nothing_more never = false
accepts_nothing_more done = true
accepts_nothing_more (one p) = false
accepts_nothing_more (chain r s) = accepts_nothing_more r && accepts_nothing_more s
accepts_nothing_more (either r s) = accepts_nothing_more r || accepts_nothing_more s
accepts_nothing_more (many r) = true

abbrev join : Regex → Regex → Regex
join never s = never
join done s = s
join r s = chain r s

abbrev choose : Regex → Regex → Regex
choose never s = s
choose r never = r
choose r s = either r s

-- What is left to match behind the character.
abbrev pub derive : ℕ → Regex → Regex
derive c never = never
derive c done = never
derive c (one p) = if p c then done else never
derive c (chain r s) =
    let first = join (derive c r) s in
    let second = derive c s in if accepts_nothing_more r then choose first second else first
derive c (either r s) = choose (derive c r) (derive c s)
derive c (many r) = join (derive c r) (many r)

unfoldable pub full_match : Regex → List ℕ → Bool
full_match r [] = accepts_nothing_more r
full_match r (c ∷ s) = full_match (derive c r) s

-- A text as it stands.
abbrev pub literal_codes : List ℕ → Regex
literal_codes [] = done
literal_codes (c ∷ s) = chain (one (λ d. d == c)) (literal_codes s)

abbrev pub literal : String → Regex
literal s = literal_codes (codes s)

-- `r+`, `r?`, `r{n}`, `r{0,n}`
abbrev pub some_of : Regex → Regex
some_of r = chain r (many r)

abbrev pub maybe : Regex → Regex
maybe r = either r done

abbrev pub times : ℕ → Regex → Regex
times zero r = done
times (suc n) r = chain r (times n r)

abbrev pub up_to : ℕ → Regex → Regex
up_to zero r = done
up_to (suc n) r = maybe (chain r (up_to n r))
