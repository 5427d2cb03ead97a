-- ===== src/Marshal/Joined.antt =====
-- What a list of Marshalers gives once it is joined.
use bqsink.Common.{◌≡◌, refl, ap, sym, ◌∙◌, Option, none, some, List, [], ◌∷◌}
use bqsink.Fault.{Error}
use bqsink.GoTypes.{GoType, pointer_to, deref}
use bqsink.Marshal.{
  TypeMarshaler, Registry, first_of, merge, join_from, join_marshalers, look_up, problem,
  no_marshalers,
}

-- The type that pointers, of any depth, lead to.
abbrev pub pointee : GoType → GoType
pointee (pointer_to t) = pointee t
pointee t = t

-- What the list's entry holds under exactly this type.
abbrev pub entry_for : Option Registry → GoType → Option TypeMarshaler
entry_for none t = none
entry_for (some s) t = s.by_type t

-- The last of the list's marshalers that is registered for the type.
abbrev pub last_for : List (Option Registry) → GoType → Option TypeMarshaler
last_for [] t = none
last_for (m ∷ ms) t = first_of (last_for ms t) (entry_for m t)

-- The first problem in the list.
abbrev pub first_problem : List (Option Registry) → Option Error
first_problem [] = none
first_problem (m ∷ ms) = first_of (problem m) (first_problem ms)

first_of_assoc {ℓ} :
    {A : Type ℓ} (a b c : Option A) → first_of (first_of a b) c ≡ first_of a (first_of b c)
first_of_assoc none b c = refl
first_of_assoc (some a) b c = refl

first_of-none {ℓ} : {A : Type ℓ} (a : Option A) → first_of a none ≡ a
first_of-none none = refl
first_of-none (some a) = refl

join_from-entry :
    (j : Option Registry) (ms : List (Option Registry)) (t : GoType)
    → entry_for (join_from j ms) t ≡ first_of (last_for ms t) (entry_for j t)
unfolding join_from merge
join_from-entry j [] t = refl
join_from-entry j (none ∷ ms) t =
    join_from-entry j ms t
    ∙ ap (λ o. first_of o (entry_for j t)) (sym (first_of-none (last_for ms t)))
join_from-entry none (some m ∷ ms) t =
    join_from-entry (some (merge no_marshalers m)) ms t
    ∙ ap (first_of (last_for ms t)) (first_of-none (m.by_type t))
    ∙ sym (first_of-none (first_of (last_for ms t) (m.by_type t)))
join_from-entry (some s) (some m ∷ ms) t =
    join_from-entry (some (merge s m)) ms t
    ∙ sym (first_of_assoc (last_for ms t) (m.by_type t) (s.by_type t))

deref-pointee : (t : GoType) → deref t ≡ pointee t
unfolding deref
deref-pointee (pointer_to t) = deref-pointee t
deref-pointee t = refl

look_up-entry : (j : Option Registry) (t : GoType) → look_up j t ≡ entry_for j (pointee t)
unfolding look_up
look_up-entry none t = refl
look_up-entry (some s) t = ap s.by_type (deref-pointee t)

join_from-problem :
    (j : Option Registry) (ms : List (Option Registry))
    → problem (join_from j ms) ≡ first_of (problem j) (first_problem ms)
unfolding join_from problem merge
join_from-problem j [] = sym (first_of-none (problem j))
join_from-problem j (none ∷ ms) = join_from-problem j ms ∙ refl
join_from-problem none (some m ∷ ms) = join_from-problem (some (merge no_marshalers m)) ms ∙ refl
join_from-problem (some s) (some m ∷ ms) =
    join_from-problem (some (merge s m)) ms
    ∙ first_of_assoc s.build_err m.build_err (first_problem ms)

-- Of marshalers that are joined, what is found for a type, or for pointers to it of any depth, is the
-- one registered last for that type; and the problem reported is the first one. A nil list among them
-- changes neither.
pub join_marshalers-finds :
    (ms : List (Option Registry))
    → ((t : GoType) → look_up (join_marshalers ms) t ≡ last_for ms (pointee t))
      × (problem (join_marshalers ms) ≡ first_problem ms)
unfolding join_marshalers problem
join_marshalers-finds ms = (
  λ t.
      look_up-entry (join_marshalers ms) t
      ∙ join_from-entry none ms (pointee t)
      ∙ first_of-none (last_for ms (pointee t)),
  join_from-problem none ms,
)
