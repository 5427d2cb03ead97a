-- ===== src/Tests/Registered.antt =====
-- Marshalers of which two are for one type, with a nil list between them.
use bqsink.Common.{◌≡◌, refl, none, some, [], ◌∷◌, Option, List}
use bqsink.Fault.{Result, ok}
use bqsink.Column.{string_type, json_type}
use bqsink.Value.{GoValue, Value, null}
use bqsink.GoTypes.{GoType, struct_type, pointer_to, deref}
use bqsink.Marshal.{
  Registry, marshal_func, same_type, join_marshalers, join_from, merge, look_up, problem,
}
use bqsink.Marshal.Joined.{last_for, pointee, first_problem, join_marshalers-finds}

abbrev to_null : GoValue → Result Value
to_null v = ok null

abbrev listed : List (Option Registry)
listed =
    some (marshal_func (struct_type 7) string_type (some to_null))
    ∷ none
    ∷ some (marshal_func (struct_type 7) json_type (some to_null))
    ∷ some (marshal_func (pointer_to (struct_type 7)) json_type (some to_null))
    ∷ []

-- The later one is found, by a pointer to the type too.
finds_last :
    look_up (join_marshalers listed) (pointer_to (struct_type 7))
    ≡ some (record { field_type = json_type; marshal = to_null })
unfolding look_up join_marshalers join_from merge marshal_func same_type deref
finds_last = refl

join_marshalers-finds_example :
    ((t : GoType) → look_up (join_marshalers listed) t ≡ last_for listed (pointee t))
    × (problem (join_marshalers listed) ≡ first_problem listed)
join_marshalers-finds_example = join_marshalers-finds listed
