-- ===== src/Common/Text.antt =====
-- The functions of Go's `strings` package that the source calls, over native texts. A separator is
-- one character, as it is at every call.
use Prim.Native.Char.{Char, code}
use Prim.Native.String
use Prim.Native.String.{String, [], ◌∷◌}
use mathlib.Core.Bool.{Bool, true, false}
use mathlib.Core.List.{List}
use Prim.Native.Nat.{ℕ}
use bqsink.Common.Tests.{◌==◌, if◌then◌else◌}

abbrev pub on_head : Char → List String → List String
on_head d List.[] = List.◌∷◌ (d ∷ []) List.[]
on_head d (List.◌∷◌ p ps) = List.◌∷◌ (d ∷ p) ps

-- strings.Split(s, sep); the separator is given by its code point
unfoldable pub split : ℕ → String → List String
split sep [] = List.◌∷◌ [] List.[]
split sep (d ∷ s) =
    let rest = split sep s in if code d == sep then List.◌∷◌ [] rest else on_head d rest

-- strings.Cut(s, sep): what stands before and after the first separator, and whether there is one
unfoldable pub cut : ℕ → String → String × String × Bool
cut sep [] = ([], [], false)
cut sep (d ∷ s) =
    let rest = cut sep s in if code d == sep then ([], s, true) else (d ∷ rest.0, rest.1, rest.2)

-- strings.Join(parts, sep)
unfoldable pub join : String → List String → String
join sep List.[] = []
join sep (List.◌∷◌ p List.[]) = p
join sep (List.◌∷◌ p (List.◌∷◌ q ps)) = String.◌++◌ p (String.◌++◌ sep (join sep (List.◌∷◌ q ps)))

-- The code points of a text.
abbrev pub codes : String → List ℕ
codes [] = List.[]
codes (c ∷ s) = List.◌∷◌ (code c) (codes s)
