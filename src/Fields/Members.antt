-- ===== src/Fields/Members.antt =====
-- Membership in lists of candidates, and lists in which no two stand for one field.
use bqsink.Common.{
  ℕ, ◌≡◌, ◌≢◌, ◌↔◌, refl, ap, sym, ◌∙◌, subst, ◌⊎◌, inl, inr, Bool, true, false, some, List, [],
  ◌∷◌, All, keep_if, Bool-cases, arith,
}
use bqsink.Fields.{Candidate, only, same_index}

pub same_index_iff : (a b : List ℕ) → (same_index a b ≡ true) ↔ (a ≡ b)
same_index_iff [] [] = (λ h. refl, λ h. refl)
same_index_iff [] (b ∷ bs) = (λ h. cc, λ h. cc)
same_index_iff (a ∷ xs) [] = (λ h. cc, λ h. cc)
same_index_iff (a ∷ xs) (b ∷ ys) = (
  λ h. ground (arith, h, (same_index_iff xs ys).0),
  λ h. ground (arith, h, (same_index_iff xs ys).1),
)

abbrev pub Member : Candidate → List Candidate → Type 0
Member c [] = ⊥
Member c (d ∷ ds) = (c ≡ d) ⊎ Member c ds

-- No two candidates stand for one field.
abbrev pub IsApart : List Candidate → Type 0
IsApart [] = Unit
IsApart (c ∷ cs) = All (λ d. d.index ≢ c.index) cs × IsApart cs

pub Member-All {κ} :
    (P : Candidate → Type κ) (cs : List Candidate) {c : Candidate} → All P cs → Member c cs → P c
Member-All P [] h m = absurd m
Member-All P (d ∷ ds) h (inl e) = subst P (sym e) h.0
Member-All P (d ∷ ds) h (inr m) = Member-All P ds h.1 m

pub All-Member {κ} :
    (P : Candidate → Type κ) (cs : List Candidate)
    → ((c : Candidate) → Member c cs → P c)
    → All P cs
All-Member P [] h = tt
All-Member P (d ∷ ds) h = (h d (inl refl), All-Member P ds (λ c m. h c (inr m)))

pub keep_if-Member :
    (p : Candidate → Bool) (cs : List Candidate) (c : Candidate)
    → Member c (keep_if p cs) ↔ (Member c cs × (p c ≡ true))
keep_if-Member p [] c = (λ m. absurd m, λ m. absurd m.0)
keep_if-Member p (d ∷ ds) c = elim (Bool-cases (p d)) [
  | inl pass ↦ rw pass (
    λ m. elim m [
      | inl e ↦ (inl e, ap p e ∙ pass)
      | inr k ↦ let (a, b) = (keep_if-Member p ds c).0 k in (inr a, b)
    ],
    λ (m, h). elim m [ inl e ↦ inl e | inr k ↦ inr ((keep_if-Member p ds c).1 (k, h)) ],
  )
  | inr fail ↦ rw fail (
    λ k. let (a, b) = (keep_if-Member p ds c).0 k in (inr a, b),
    λ (m, h). elim m [
      | inl e ↦ let clash : true ≡ false = sym h ∙ ap p e ∙ fail in cc
      | inr k ↦ (keep_if-Member p ds c).1 (k, h)
    ],
  )
]

pub keep_if-IsApart :
    (p : Candidate → Bool) (cs : List Candidate) → IsApart cs → IsApart (keep_if p cs)
keep_if-IsApart p [] h = tt
keep_if-IsApart p (d ∷ ds) h = elim (Bool-cases (p d)) [
  | inl pass ↦ rw pass (
    All-Member _ (keep_if p ds) (λ c m. Member-All _ ds h.0 ((keep_if-Member p ds c).0 m).0),
    keep_if-IsApart p ds h.1,
  )
  | inr fail ↦ rw fail (keep_if-IsApart p ds h.1)
]

-- Of candidates that stand for different fields, those of one index are one.
pub same_candidate :
    (cs : List Candidate) (c d : Candidate)
    → IsApart cs
    → Member c cs
    → Member d cs
    → c.index ≡ d.index
    → c ≡ d
same_candidate [] c d h m k e = absurd m
same_candidate (x ∷ xs) c d h (inl a) (inl b) e = a ∙ sym b
same_candidate (x ∷ xs) c d h (inl a) (inr k) e =
    absurd (Member-All _ xs h.0 k (sym e ∙ ap (λ y. y.index) a))
same_candidate (x ∷ xs) c d h (inr m) (inl b) e =
    absurd (Member-All _ xs h.0 m (e ∙ ap (λ y. y.index) b))
same_candidate (x ∷ xs) c d h (inr m) (inr k) e = same_candidate xs c d h.1 m k e

only-alone : (cs : List Candidate) (w : Candidate) → only cs ≡ some w → cs ≡ w ∷ []
only-alone [] w h = cc
only-alone (c ∷ []) w h = cc
only-alone (c ∷ d ∷ ds) w h = cc

-- The one candidate of the list that passes the test.
abbrev pub Lone : (Candidate → Bool) → List Candidate → Candidate → Type 0
Lone p cs w = Member w cs × (p w ≡ true) × ((g : Candidate) → Member g cs → p g ≡ true → g ≡ w)

lone_list :
    (cs : List Candidate) (w : Candidate)
    → IsApart cs
    → Member w cs
    → ((g : Candidate) → Member g cs → g ≡ w)
    → only cs ≡ some w
lone_list [] w h m one = absurd m
lone_list (c ∷ []) w h m one = ap some (one c (inl refl))
lone_list (c ∷ d ∷ ds) w h m one =
    absurd (h.0.0 (ap (λ x. x.index) (one d (inr (inl refl)) ∙ sym (one c (inl refl)))))

pub only-keep_if_iff :
    (p : Candidate → Bool) (cs : List Candidate) (w : Candidate)
    → IsApart cs
    → (only (keep_if p cs) ≡ some w) ↔ Lone p cs w
only-keep_if_iff p cs w h = (
  λ e.
      let alone : keep_if p cs ≡ w ∷ [] = only-alone (keep_if p cs) w e in
      let (m, q) = (keep_if-Member p cs w).0 (subst (Member w) (sym alone) (inl refl)) in
      (m, q, λ g k r. first g w (subst (Member g) alone ((keep_if-Member p cs g).1 (k, r)))),
  λ (m, q, one).
      lone_list (keep_if p cs) w (keep_if-IsApart p cs h) ((keep_if-Member p cs w).1 (m, q))
        (λ g k. let (a, b) = (keep_if-Member p cs g).0 k in one g a b),
)
  where
    first : (g w : Candidate) → Member g (w ∷ []) → g ≡ w
    first g w (inl e) = e
    first g w (inr m) = absurd m
