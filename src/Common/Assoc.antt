-- ===== src/Common/Assoc.antt =====
-- Go's `map[string]V` as an association list whose newest binding comes first, so a write hides an
-- older binding of its key. The source never relies on the order of a map's keys.
use Prim.Native.String.{String}
use mathlib.Core.Option.{Option, none, some}
use mathlib.Core.List.{List, [], ◌∷◌}
use bqsink.Common.Tests.{str_eq, if◌then◌else◌}

abbrev pub Assoc {ℓ} : Type ℓ → Type ℓ
Assoc V = List (String × V)

module _ {ℓ} {V : Type ℓ} where
  -- m[k] = v
  abbrev pub insert : String → V → Assoc V → Assoc V
  insert k v m = (k, v) ∷ m

  -- v, ok := m[k]
  abbrev pub lookup : String → Assoc V → Option V
  lookup k [] = none
  lookup k ((j, v) ∷ m) = if str_eq j k then some v else lookup k m
