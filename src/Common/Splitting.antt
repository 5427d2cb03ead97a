-- ===== src/Common/Splitting.antt =====
-- Splitting a text at a separator and joining the parts again.
use Prim.Native.Char.{Char, code}
use Prim.Native.String.{String, [], ◌∷◌, ◌++◌}
use Prim.Native.Nat.{ℕ}
use mathlib.Core.Path.{◌≡◌, refl, ap, ◌∙◌}
use mathlib.Core.Logic.{◌≢◌, inl, inr}
use mathlib.Core.List.{List}
use native.Mathlib.Omega.{arith}
use text.Mathlib.TextLemmas.{nil-append, cons-append}
use text.Mathlib.TextEquality.{Char-path}
use mathlib.Core.Bool.{false}
use bqsink.Common.Tests.{◌==◌, Bool-cases}
use bqsink.Common.Text.{split, on_head, join}
use bqsink.Common.Lists.{All}

-- No character of the text is the separator.
abbrev pub Lacks : ℕ → String → Type 0
Lacks sep [] = Unit
Lacks sep (c ∷ s) = (code c ≢ sep) × Lacks sep s

-- The separator is one character.
module _ (sep : Char) where
  join-on_head :
      (c : Char) (ps : List String)
      → ps ≢ List.[]
      → join (sep ∷ []) (on_head c ps) ≡ c ∷ join (sep ∷ []) ps
  unfolding join
  join-on_head c List.[] h = absurd (h refl)
  join-on_head c (List.◌∷◌ p List.[]) h = refl
  join-on_head c (List.◌∷◌ p (List.◌∷◌ q ps)) h = cons-append c p _

split-cons :
    (sep : ℕ) (s : String) → (p : String) × (ps : List String) × (split sep s ≡ List.◌∷◌ p ps)
unfolding split
split-cons sep [] = ([], List.[], refl)
split-cons sep (d ∷ s) = elim (Bool-cases (code d == sep)) [
  | inl cut ↦ ([], split sep s, rw cut)
  | inr on ↦ let (p, ps, e) = split-cons sep s in (d ∷ p, ps, rw (on, e))
]

split-ne-nil : (sep : ℕ) (s : String) → split sep s ≢ List.[]
split-ne-nil sep s h = let (p, ps, e) = split-cons sep s in ground (arith, e, h)

join-cons_nil :
    (sep : String) (ps : List String)
    → ps ≢ List.[]
    → join sep (List.◌∷◌ [] ps) ≡ sep ++ join sep ps
unfolding join
join-cons_nil sep List.[] h = absurd (h refl)
join-cons_nil sep (List.◌∷◌ p ps) h = nil-append _

-- Joining the parts gives the text back.
pub join-split : (sep : Char) (s : String) → join (sep ∷ []) (split (code sep) s) ≡ s
unfolding split
join-split sep [] = unfold join in refl
join-split sep (d ∷ s) = elim (Bool-cases (code d == code sep)) [
  | inl cut ↦
      rw
        (
          cut,
          join-cons_nil (sep ∷ []) (split (code sep) s) (split-ne-nil (code sep) s),
          join-split sep s,
        )
        (cons-append sep [] s
          ∙ ap (λ t. sep ∷ t) (nil-append s)
          ∙ ap (λ c. c ∷ s) (Char-path sep d (ground arith)))
  | inr on ↦
      rw (on, join-on_head sep d (split (code sep) s) (split-ne-nil (code sep) s), join-split sep s)
]

-- A text without the separator is its own only part.
pub split-Lacks : (sep : ℕ) (s : String) → Lacks sep s → split sep s ≡ List.◌∷◌ s List.[]
unfolding split
split-Lacks sep [] h = refl
split-Lacks sep (d ∷ s) h = ground (arith, split-Lacks sep s h.1)

-- The text before the first separator is the first part.
pub split-append :
    (sep : Char) (s rest : String)
    → Lacks (code sep) s
    → split (code sep) (s ++ (sep ∷ rest)) ≡ List.◌∷◌ s (split (code sep) rest)
unfolding split
split-append sep [] rest h = rw nil-append (ground arith)
split-append sep (d ∷ s) rest h = rw cons-append (ground (arith, split-append sep s rest h.1))

-- No part holds the separator.
pub split-parts : (sep : ℕ) (s : String) → All (Lacks sep) (split sep s)
unfolding split
split-parts sep [] = (tt, tt)
split-parts sep (d ∷ s) = elim (Bool-cases (code d == sep)) [
  | inl same ↦ rw same (tt, split-parts sep s)
  | inr other ↦ rw other (go other (split sep s) (split-parts sep s))
]
  where
    go :
        (code d == sep) ≡ false
        → (ps : List String) → All (Lacks sep) ps
        → All (Lacks sep) (on_head d ps)
    go other List.[] h = ((λ e. ground (arith, other, e), tt), tt)
    go other (List.◌∷◌ p ps) h = ((λ e. ground (arith, other, e), h.0), h.1)
