-- ===== src/Fields/Indices.antt =====
-- The indices of the fields that the search finds: no two are the same.
use bqsink.Common.{
  ℕ, suc, ◌≤◌, ◌≡◌, ◌≢◌, refl, ap, sym, ◌∙◌, List, [], ◌∷◌, ◌++◌, length, length-append, All,
  All-append, All-map, arith,
}
use bqsink.Fields.{Candidate, Parent}

abbrev last_or : ℕ → List ℕ → ℕ
last_or n [] = n
last_or n (x ∷ xs) = last_or x xs

abbrev but_last : List ℕ → List ℕ
but_last [] = []
but_last (x ∷ []) = []
but_last (x ∷ y ∷ xs) = x ∷ but_last (y ∷ xs)

last_or-append : (n i : ℕ) (xs : List ℕ) → last_or n (xs ++ i ∷ []) ≡ i
last_or-append n i [] = refl
last_or-append n i (x ∷ xs) = last_or-append x i xs

but_last-append : (i : ℕ) (xs : List ℕ) → but_last (xs ++ i ∷ []) ≡ xs
but_last-append i [] = refl
but_last-append i (x ∷ []) = refl
but_last-append i (x ∷ y ∷ xs) = ap (λ zs. x ∷ zs) (but_last-append i (y ∷ xs))

same_last : (xs ys : List ℕ) (i j : ℕ) → xs ++ i ∷ [] ≡ ys ++ j ∷ [] → i ≡ j
same_last xs ys i j e = sym (last_or-append 0 i xs) ∙ ap (last_or 0) e ∙ last_or-append 0 j ys

same_rest : (xs ys : List ℕ) (i j : ℕ) → xs ++ i ∷ [] ≡ ys ++ j ∷ [] → xs ≡ ys
same_rest xs ys i j e = sym (but_last-append i xs) ∙ ap but_last e ∙ but_last-append j ys

abbrev pub Indices : Type 0
Indices = List (List ℕ)

abbrev pub Apart : Indices → Type 0
Apart [] = Unit
Apart (x ∷ xs) = All (λ y. y ≢ x) xs × Apart xs

Apart-append : (xs : Indices) (x : List ℕ) → Apart xs → All (λ y. y ≢ x) xs → Apart (xs ++ x ∷ [])
Apart-append [] x h k = (tt, tt)
Apart-append (y ∷ ys) x h k =
    (All-append _ ys (x ∷ []) h.0 (λ e. k.0 (sym e), tt), Apart-append ys x h.1 k.1)

abbrev pub indices : List Candidate → Indices
indices [] = []
indices (c ∷ cs) = c.index ∷ indices cs

abbrev pub places : List Parent → Indices
places [] = []
places (p ∷ ps) = p.index ∷ places ps

pub indices-append :
    (cs : List Candidate) (c : Candidate) → indices (cs ++ c ∷ []) ≡ indices cs ++ c.index ∷ []
indices-append [] c = refl
indices-append (d ∷ ds) c = ap (λ xs. d.index ∷ xs) (indices-append ds c)

pub places-append :
    (ps : List Parent) (p : Parent) → places (ps ++ p ∷ []) ≡ places ps ++ p.index ∷ []
places-append [] p = refl
places-append (q ∷ qs) p = ap (λ xs. q.index ∷ xs) (places-append qs p)

-- No field of the struct at `p`, from number `i` on, has this index.
abbrev pub IsFree : List ℕ → List ℕ → ℕ → Type 0
IsFree x p i = (j : ℕ) → i ≤ j → x ≢ p ++ j ∷ []

-- Before field `i` of the struct at `p`, with the structs at `ps` to follow and all at depth `d`, the
-- indices are apart, free of what is to come, and no longer than those.
abbrev pub IsTidy : ℕ → List ℕ → ℕ → Indices → Indices → Type 0
IsTidy d p i ps xs =
    Apart xs × All (λ x. IsFree x p i × All (λ q. IsFree x q 0) ps × (length x ≤ suc d)) xs

pub IsTidy-skip :
    (d : ℕ) (p : List ℕ) (i : ℕ) (ps xs : Indices) → IsTidy d p i ps xs → IsTidy d p (suc i) ps xs
IsTidy-skip d p i ps xs h = (
  h.0,
  All-map (λ x (free, later, short). (λ j le. free j (omega (arith, le)), later, short)) xs h.1,
)

pub IsTidy-add :
    (d : ℕ) (p : List ℕ) (i : ℕ) (ps xs : Indices)
    → length p ≡ d
    → All (λ q. q ≢ p) ps
    → IsTidy d p i ps xs
    → IsTidy d p (suc i) ps (xs ++ (p ++ i ∷ []) ∷ [])
IsTidy-add d p i ps xs len apart h = (
  Apart-append xs (p ++ i ∷ []) h.0 (All-map (λ x (free, _, _). free i (omega arith)) xs h.1),
  All-append _ xs ((p ++ i ∷ []) ∷ []) (IsTidy-skip d p i ps xs h).1 (
    (
      λ j le e. absurd (omega (arith, same_last p p i j e, le)),
      All-map (λ q other j le e. other (sym (same_rest p q i j e))) ps apart,
      omega (arith, length-append p (i ∷ []), len),
    ),
    tt,
  ),
)

pub IsTidy-next :
    (d : ℕ) (p : List ℕ) (i : ℕ) (q : List ℕ) (ps xs : Indices)
    → IsTidy d p i (q ∷ ps) xs
    → IsTidy d q 0 ps xs
IsTidy-next d p i q ps xs h =
    (h.0, All-map (λ x (free, (next, later), short). (next, later, short)) xs h.1)
