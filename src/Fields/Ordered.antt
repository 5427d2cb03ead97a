-- ===== src/Fields/Ordered.antt =====
-- The order that the columns come back in.
use bqsink.Common.{
  ℕ, ◌≡◌, ◌≢◌, ◌↔◌, refl, sym, subst, ◌⊎◌, inl, inr, true, false, List, [], ◌∷◌, All, All-map,
  Bool-cases, arith,
}
use bqsink.Fields.{Candidate, before, insert_by_index, sort_by_index}
use bqsink.Fields.Members.{Member, IsApart, Member-All, All-Member}

before_trans : (a b c : List ℕ) → before a b ≡ true → before b c ≡ true → before a c ≡ true
before_trans [] [] c h k = cc
before_trans [] (b ∷ bs) [] h k = cc
before_trans [] (b ∷ bs) (c ∷ cs) h k = refl
before_trans (a ∷ xs) [] c h k = cc
before_trans (a ∷ xs) (b ∷ ys) [] h k = cc
before_trans (a ∷ xs) (b ∷ ys) (c ∷ zs) h k = ground (arith, h, k, before_trans xs ys zs)

-- Of two different indices one is before the other.
before_total : (a b : List ℕ) → before a b ≡ false → (b ≡ a) ⊎ (before b a ≡ true)
before_total [] [] h = inl refl
before_total [] (b ∷ bs) h = cc
before_total (a ∷ xs) [] h = inr refl
before_total (a ∷ xs) (b ∷ ys) h = ground (arith, h, before_total xs ys)

-- Each is before all that follow it.
abbrev pub IsOrdered : List Candidate → Type 0
IsOrdered [] = Unit
IsOrdered (c ∷ cs) = All (λ d. before c.index d.index ≡ true) cs × IsOrdered cs

insert_by_index-Member :
    (c : Candidate) (cs : List Candidate) (d : Candidate)
    → Member d (insert_by_index c cs) ↔ ((d ≡ c) ⊎ Member d cs)
unfolding insert_by_index
insert_by_index-Member c [] d = (λ m. m, λ m. m)
insert_by_index-Member c (x ∷ xs) d = elim (Bool-cases (before x.index c.index)) [
  | inl b ↦ rw b (
    λ m. elim m [
      | inl e ↦ inr (inl e)
      | inr n ↦ elim ((insert_by_index-Member c xs d).0 n) [ inl e ↦ inl e | inr k ↦ inr (inr k) ]
    ],
    λ m. elim m [
      | inl e ↦ inr ((insert_by_index-Member c xs d).1 (inl e))
      | inr (inl e) ↦ inl e
      | inr (inr k) ↦ inr ((insert_by_index-Member c xs d).1 (inr k))
    ],
  )
  | inr b ↦ rw b (λ m. m, λ m. m)
]

pub sort_by_index-Member :
    (cs : List Candidate) (d : Candidate) → Member d (sort_by_index cs) ↔ Member d cs
unfolding sort_by_index
sort_by_index-Member [] d = (λ m. m, λ m. m)
sort_by_index-Member (c ∷ cs) d =
    let (there, back) = insert_by_index-Member c (sort_by_index cs) d in
    let (inner, outer) = sort_by_index-Member cs d in
    (
      λ m. elim (there m) [ inl e ↦ inl e | inr k ↦ inr (inner k) ],
      λ m. elim m [ inl e ↦ back (inl e) | inr k ↦ back (inr (outer k)) ],
    )

insert_by_index-IsOrdered :
    (c : Candidate) (cs : List Candidate)
    → All (λ d. d.index ≢ c.index) cs
    → IsOrdered cs
    → IsOrdered (insert_by_index c cs)
unfolding insert_by_index
insert_by_index-IsOrdered c [] new h = (tt, tt)
insert_by_index-IsOrdered c (x ∷ xs) new h = elim (Bool-cases (before x.index c.index)) [
  | inl b ↦ rw b (
    All-Member _ (insert_by_index c xs) (λ d m. elim ((insert_by_index-Member c xs d).0 m) [
      | inl e ↦ subst (λ y. before x.index y.index ≡ true) (sym e) b
      | inr k ↦ Member-All _ xs h.0 k
    ]),
    insert_by_index-IsOrdered c xs new.1 h.1,
  )
  | inr b ↦
      let first : before c.index x.index ≡ true = elim (before_total x.index c.index b) [
        | inl e ↦ absurd (new.0 (sym e))
        | inr k ↦ k
      ] in
      rw b ((first, All-map (λ d k. before_trans c.index x.index d.index first k) xs h.0), h)
]

pub sort_by_index-IsOrdered : (cs : List Candidate) → IsApart cs → IsOrdered (sort_by_index cs)
unfolding sort_by_index
sort_by_index-IsOrdered [] h = tt
sort_by_index-IsOrdered (c ∷ cs) h =
    insert_by_index-IsOrdered c (sort_by_index cs)
      (All-Member _ (sort_by_index cs)
        (λ d m. Member-All _ cs h.0 ((sort_by_index-Member cs d).0 m)))
      (sort_by_index-IsOrdered cs h.1)
