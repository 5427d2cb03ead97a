-- ===== src/Fields/Dominant.antt =====
-- resolveCollisions keeps exactly the fields that win their names.
use bqsink.Common.{
  ◌≡◌, ◌↔◌, refl, sym, ◌∙◌, subst, ◌⊎◌, inl, inr, Bool, true, false, Option, none, some, List,
  str_eq, eq_iff, keep_if, arith,
}
use bqsink.Fields.{Candidate, named, winner_for, is_index, is_winner, resolve_collisions}
use bqsink.Fields.Members.{
  Member, IsApart, keep_if-Member, keep_if-IsApart, same_candidate, same_index_iff,
}
use bqsink.Fields.Collisions.{Hides, winner_for_iff}
use bqsink.Fields.Ordered.{IsOrdered, sort_by_index-Member, sort_by_index-IsOrdered}

-- It hides every other candidate of its name.
abbrev pub Wins : Candidate → List Candidate → Type 0
Wins f found = (g : Candidate) → Member g found → g.name ≡ f.name → (g ≡ f) ⊎ Hides f g

not_both : (f g : Candidate) → Hides f g → Hides g f → ⊥
not_both f g (inl a) (inl b) = omega (arith, a, b)
not_both f g (inl a) (inr (b, _, _)) = omega (arith, a, b)
not_both f g (inr (a, _, _)) (inl b) = omega (arith, a, b)
not_both f g (inr (_, _, plain)) (inr (_, tag, _)) =
    let clash : true ≡ false = sym tag ∙ plain in cc

is_winner_iff :
    (found : List Candidate) (f : Candidate)
    → IsApart found
    → Member f found
    → (is_winner found f ≡ true) ↔ Wins f found
unfolding is_winner
is_winner_iff found f apart m =
    (λ h. to (winner_for (named f.name found)) refl h, λ wins. from wins)
  where
    same : Candidate → Bool
    same c = str_eq c.name f.name

    in_named : (g : Candidate) → Member g found → g.name ≡ f.name → Member g (named f.name found)
    in_named g n e =
        (keep_if-Member (λ c. str_eq c.name f.name) found g).1 (n, (eq_iff g.name f.name).1 e)

    apart_named : IsApart (named f.name found)
    apart_named = keep_if-IsApart (λ c. str_eq c.name f.name) found apart

    to :
        (o : Option Candidate)
        → winner_for (named f.name found) ≡ o
        → is_index f.index o ≡ true
        → Wins f found
    to none e h = cc
    to (some w) e h =
        let (inside, alone) = (winner_for_iff (named f.name found) w apart_named).0 e in
        let it : w ≡ f =
          same_candidate (named f.name found) w f apart_named inside (in_named f m refl)
            ((same_index_iff w.index f.index).0 h) in
        λ g n e. subst (λ x. (g ≡ x) ⊎ Hides x g) it (alone g (in_named g n e))

    from : Wins f found → is_index f.index (winner_for (named f.name found)) ≡ true
    from wins =
        let won : winner_for (named f.name found) ≡ some f =
          (winner_for_iff (named f.name found) f apart_named).1 (
            in_named f m refl,
            λ g n.
                let (a, b) = (keep_if-Member (λ c. str_eq c.name f.name) found g).0 n in
                wins g a ((eq_iff g.name f.name).0 b),
          ) in
        rw won ((same_index_iff f.index f.index).1 refl)

-- Where the candidates stand for different fields, resolveCollisions keeps a candidate exactly when it
-- hides every other one of its name, by being shallower or, at the same depth, by being tagged where
-- the other is not; so no two that it keeps have one name; and it orders them by their index.
pub resolve_collisions-Dominant :
    (found : List Candidate)
    → IsApart found
    → ((f : Candidate) → Member f (resolve_collisions found) ↔ (Member f found × Wins f found))
      × ((f g : Candidate)
          → Member f (resolve_collisions found)
          → Member g (resolve_collisions found)
          → f.name ≡ g.name
          → f ≡ g)
      × IsOrdered (resolve_collisions found)
unfolding resolve_collisions
resolve_collisions-Dominant found apart = (kept, lone, ordered)
  where
    survivors : List Candidate
    survivors = keep_if (λ f. is_winner found f) found

    kept : (f : Candidate) → Member f (resolve_collisions found) ↔ (Member f found × Wins f found)
    kept f = (
      λ m.
          let (n, h) =
            (keep_if-Member (λ f. is_winner found f) found f).0
              ((sort_by_index-Member survivors f).0 m) in
          (n, (is_winner_iff found f apart n).0 h),
      λ (n, wins). (sort_by_index-Member survivors f).1 (
          (keep_if-Member (λ f. is_winner found f) found f).1
            (n, (is_winner_iff found f apart n).1 wins)),
    )

    lone :
        (f g : Candidate)
        → Member f (resolve_collisions found)
        → Member g (resolve_collisions found)
        → f.name ≡ g.name
        → f ≡ g
    lone f g m n e =
        let (a, p) = (kept f).0 m in
        let (b, q) = (kept g).0 n in
        elim (p g b (sym e)) [
          | inl same ↦ sym same
          | inr h ↦ elim (q f a e) [ inl same ↦ same | inr k ↦ absurd (not_both f g h k) ]
        ]

    ordered : IsOrdered (resolve_collisions found)
    ordered =
        sort_by_index-IsOrdered survivors (keep_if-IsApart (λ f. is_winner found f) found apart)
