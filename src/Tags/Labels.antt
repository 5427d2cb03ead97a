-- ===== src/Tags/Labels.antt =====
-- The labels that are read are those that were written.
use Prim.Native.Char.{Char, code}
use Prim.Native.String.{[], ◌∷◌, ◌++◌}
use mathlib.Core.List as L
use bqsink.Common.{
  String, ◌≡◌, refl, ap, sym, ◌∙◌, subst, eq_iff, true, false, List, map, append-nil, append_assoc,
  contains, contains-append, Distinct, arith, Bool-cases, inl, inr, ◌==◌,
}
use text.Mathlib.TextEquality.{Char-path}
use text.Mathlib.TextLemmas.{nil-append, cons-append}
use bqsink.Common.Text.{split, cut}
use bqsink.Common.Text
use bqsink.Common.Assoc.{Assoc, lookup}
use bqsink.Common.Splitting.{join-split}
use bqsink.Fault.{ok}
use bqsink.Tags.{taken, read_labels, parse_labels}

cut-found :
    (sep : Char) (s : String)
    → (cut (code sep) s).2 ≡ true
    → (cut (code sep) s).0 ++ (sep ∷ (cut (code sep) s).1) ≡ s
unfolding cut
cut-found sep [] h = cc
cut-found sep (d ∷ s) h = elim (Bool-cases (code d == code sep)) [
  | inl hit ↦ rw hit (nil-append (sep ∷ s) ∙ ap (λ c. c ∷ s) (Char-path sep d (ground arith)))
  | inr on ↦ let h' = rw on at h in rw on (cons-append d _ _ ∙ ap (λ t. d ∷ t) (cut-found sep s h'))
]

abbrev equals : Char
equals = "="

abbrev pub pair_text : String × String → String
pair_text p = p.0 ++ (equals ∷ p.1)

abbrev pub keys : Assoc String → List String
keys List.[] = List.[]
keys (List.◌∷◌ p ps) = List.◌∷◌ p.0 (keys ps)

keys-append : (a b : Assoc String) → keys (L.◌++◌ a b) ≡ L.◌++◌ (keys a) (keys b)
keys-append List.[] b = refl
keys-append (List.◌∷◌ p a) b = ap (λ l. List.◌∷◌ p.0 l) (keys-append a b)

texts-append :
    (a b : Assoc String) → map pair_text (L.◌++◌ a b) ≡ L.◌++◌ (map pair_text a) (map pair_text b)
texts-append List.[] b = refl
texts-append (List.◌∷◌ p a) b = ap (λ l. List.◌∷◌ (pair_text p) l) (texts-append a b)

read_labels-texts :
    (pairs : List String) (labels out : Assoc String)
    → read_labels pairs labels ≡ ok out
    → map pair_text out ≡ L.◌++◌ (map pair_text labels) pairs
unfolding read_labels
read_labels-texts List.[] labels out h =
    ap (map pair_text) (sym (ground (arith, h))) ∙ sym (append-nil (map pair_text labels))
read_labels-texts (List.◌∷◌ pair pairs) labels out h =
    let parts = cut b'=' pair in
    let more = L.◌++◌ labels (List.◌∷◌ (parts.0, parts.1) List.[]) in
    let found : parts.2 ≡ true = ground (arith, h) in
    let rest : read_labels pairs more ≡ ok out = ground (arith, h) in
    read_labels-texts pairs more out rest
    ∙ ap (λ l. L.◌++◌ l pairs) (texts-append labels (List.◌∷◌ (parts.0, parts.1) List.[]))
    ∙ append_assoc (map pair_text labels) _ pairs
    ∙ ap (λ t. L.◌++◌ (map pair_text labels) (List.◌∷◌ t pairs)) (cut-found equals pair found)

Distinct-snoc :
    (xs : List String) (x : String)
    → Distinct xs
    → contains x xs ≡ false
    → Distinct (L.◌++◌ xs (List.◌∷◌ x List.[]))
Distinct-snoc List.[] x d h = (refl, tt)
Distinct-snoc (List.◌∷◌ y xs) x d h = (
  ground (arith, d.0, h, contains-append y xs (List.◌∷◌ x List.[]), eq_iff x y, eq_iff y x),
  Distinct-snoc xs x d.1 (ground (arith, h)),
)

lookup-absent :
    (x : String) (labels : Assoc String)
    → taken (lookup x labels) ≡ false
    → contains x (keys labels) ≡ false
lookup-absent x List.[] h = refl
lookup-absent x (List.◌∷◌ p labels) h =
    ground (arith, h, lookup-absent x labels, eq_iff x p.0, eq_iff p.0 x)

read_labels-Distinct :
    (pairs : List String) (labels out : Assoc String)
    → Distinct (keys labels)
    → read_labels pairs labels ≡ ok out
    → Distinct (keys out)
unfolding read_labels
read_labels-Distinct List.[] labels out d h = subst (λ l. Distinct (keys l)) (ground (arith, h)) d
read_labels-Distinct (List.◌∷◌ pair pairs) labels out d h =
    let parts = cut b'=' pair in
    let free : taken (lookup parts.0 labels) ≡ false = ground (arith, h) in
    let rest : read_labels pairs (L.◌++◌ labels (List.◌∷◌ (parts.0, parts.1) List.[])) ≡ ok out =
      ground (arith, h) in
    read_labels-Distinct pairs (L.◌++◌ labels (List.◌∷◌ (parts.0, parts.1) List.[])) out
      (subst Distinct (sym (keys-append labels (List.◌∷◌ (parts.0, parts.1) List.[])))
        (Distinct-snoc (keys labels) parts.0 d (lookup-absent parts.0 labels free)))
      rest

abbrev comma : Char
comma = ","

-- The labels that are read from a tag, each written as its key, an equals sign and its value, and
-- joined by commas in the order in which they were read, are the tag; and no two have one key.
pub parse_labels-texts :
    (v : String) (labels : Assoc String)
    → parse_labels v ≡ ok labels
    → (Text.join "," (map pair_text labels) ≡ v) × Distinct (keys labels)
unfolding parse_labels
parse_labels-texts v labels h = (
  ap (Text.join ",") (read_labels-texts (split b',' v) List.[] labels h) ∙ join-split comma v,
  read_labels-Distinct (split b',' v) List.[] labels tt h,
)
