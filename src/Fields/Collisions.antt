-- ===== src/Fields/Collisions.antt =====
-- winnerFor against the rules that the comment on collectFields states.
use bqsink.Common.{
  ℕ, ◌≤◌, ◌<◌, ◌≡◌, ◌↔◌, refl, ap, sym, ◌∙◌, ◌⊎◌, inl, inr, true, false, Option, none, some, List,
  [], ◌∷◌, ◌==◌, ltb, All, Bool-cases, arith,
}
use bqsink.Fields.{Candidate, shallowest, only, at_depth, or_tagged, winner_for}
use bqsink.Fields.Members.{
  Member, IsApart, Member-All, keep_if-Member, keep_if-IsApart, only-keep_if_iff,
}

-- The first hides the second: it is shallower, or as deep and its name alone is from a tag.
abbrev pub Hides : Candidate → Candidate → Type 0
Hides c d = (c.depth < d.depth) ⊎ ((c.depth ≡ d.depth) × (c.tagged ≡ true) × (d.tagged ≡ false))

-- What `shallowest` finds.
shallowest-least :
    (d : ℕ) (cs : List Candidate) (e : ℕ)
    → shallowest d cs ≡ e
    → (e ≤ d) × All (λ c. e ≤ c.depth) cs
unfolding shallowest
shallowest-least d [] e h = (omega arith, tt)
shallowest-least d (c ∷ cs) e h = elim (Bool-cases (ltb c.depth d)) [
  | inl less ↦
      let (a, b) = shallowest-least c.depth cs e (rw less at h) in (ground (arith, a, less), (a, b))
  | inr not_less ↦
      let (a, b) = shallowest-least d cs e (rw not_less at h) in
      (a, (ground (arith, a, not_less), b))
]

shallowest-reached :
    (d : ℕ) (cs : List Candidate)
    → (shallowest d cs ≡ d) ⊎ ((c : Candidate) × Member c cs × (c.depth ≡ shallowest d cs))
unfolding shallowest
shallowest-reached d [] = inl refl
shallowest-reached d (c ∷ cs) = elim (Bool-cases (ltb c.depth d)) [
  | inl less ↦ rw less (elim (shallowest-reached c.depth cs) [
    | inl e ↦ inr (c, inl refl, sym e)
    | inr (w, m, e) ↦ inr (w, inr m, e)
  ])
  | inr not_less ↦
      rw not_less
        (elim (shallowest-reached d cs) [ inl e ↦ inl e | inr (w, m, e) ↦ inr (w, inr m, e) ])
]

-- It hides all the others.
abbrev pub Alone : Candidate → List Candidate → Type 0
Alone w cs = (g : Candidate) → Member g cs → (g ≡ w) ⊎ Hides w g

module _ (cs : List Candidate) (apart : IsApart cs) (d : ℕ)
    (least : (g : Candidate) → Member g cs → d ≤ g.depth)
    (reached : (g : Candidate) × Member g cs × (g.depth ≡ d)) where
  contest-winner :
      (w : Candidate)
      → or_tagged (only (at_depth d cs)) (at_depth d cs) ≡ some w
      → Member w cs × Alone w cs
  contest-winner w h = go (only (at_depth d cs)) refl h
    where
      go :
          (o : Option Candidate)
          → only (at_depth d cs) ≡ o
          → or_tagged o (at_depth d cs) ≡ some w
          → Member w cs × Alone w cs
      go (some v) e k =
          let (m, at, one) = (only-keep_if_iff (λ c. c.depth == d) cs w apart).0 (e ∙ k) in
          (
            m,
            λ g n. elim (Bool-cases (g.depth == d)) [
              | inl same ↦ inl (one g n same)
              | inr other ↦ inr (inl (ground (arith, at, other, least g n)))
            ],
          )
      go none e k =
          let (m, tag, one) =
            (only-keep_if_iff (λ c. c.tagged) (at_depth d cs) w
                (keep_if-IsApart (λ c. c.depth == d) cs apart)).0
              k in
          let (m', at) = (keep_if-Member (λ c. c.depth == d) cs w).0 m in
          (
            m',
            λ g n. elim (Bool-cases (g.depth == d)) [
              | inl same ↦ elim (Bool-cases g.tagged) [
                | inl also ↦
                    inl (one g ((keep_if-Member (λ c. c.depth == d) cs g).1 (n, same)) also)
                | inr plain ↦ inr (inr (ground (arith, at, same), tag, plain))
              ]
              | inr other ↦ inr (inl (ground (arith, at, other, least g n)))
            ],
          )

  winner-contest :
      (w : Candidate)
      → Member w cs
      → Alone w cs
      → or_tagged (only (at_depth d cs)) (at_depth d cs) ≡ some w
  winner-contest w m alone = go (only (at_depth d cs)) refl
    where
      depth_of : w.depth ≡ d
      depth_of =
          let (g, n, e) = reached in
          elim (alone g n) [
            | inl same ↦ sym (ap (λ c. c.depth) same) ∙ e
            | inr (inl less) ↦ omega (arith, less, e, least w m)
            | inr (inr (same, _, _)) ↦ same ∙ e
          ]

      at : (w.depth == d) ≡ true
      at = ground (arith, depth_of)

      inside : Member w (at_depth d cs)
      inside = (keep_if-Member (λ c. c.depth == d) cs w).1 (m, at)

      -- At its depth, one that hides is tagged and the others are not.
      unless_tagged :
          w.tagged ≡ false → (g : Candidate) → Member g cs → (g.depth == d) ≡ true → g ≡ w
      unless_tagged plain g n same = elim (alone g n) [
        | inl e ↦ e
        | inr (inl less) ↦ absurd (ground (arith, less, same, depth_of))
        | inr (inr (_, tag, _)) ↦ let clash : true ≡ false = sym tag ∙ plain in cc
      ]

      is_tagged : only (at_depth d cs) ≡ none → w.tagged ≡ true
      is_tagged e = elim (Bool-cases w.tagged) [
        | inl tag ↦ tag
        | inr plain ↦
            let won : only (at_depth d cs) ≡ some w =
              (only-keep_if_iff (λ c. c.depth == d) cs w apart).1 (m, at, unless_tagged plain) in
            let clash : none ≡ some w = sym e ∙ won in cc
      ]

      others : (g : Candidate) → Member g (at_depth d cs) → g.tagged ≡ true → g ≡ w
      others g n tag =
          let (k, same) = (keep_if-Member (λ c. c.depth == d) cs g).0 n in
          elim (alone g k) [
            | inl e ↦ e
            | inr (inl less) ↦ absurd (ground (arith, less, same, depth_of))
            | inr (inr (_, _, plain)) ↦ let clash : true ≡ false = sym tag ∙ plain in cc
          ]

      go : (o : Option Candidate) → only (at_depth d cs) ≡ o → or_tagged o (at_depth d cs) ≡ some w
      go (some v) e =
          let (n, q, one) = (only-keep_if_iff (λ c. c.depth == d) cs v apart).0 e in
          ap some (sym (one w m at))
      go none e =
          (only-keep_if_iff (λ c. c.tagged) (at_depth d cs) w
              (keep_if-IsApart (λ c. c.depth == d) cs apart)).1
            (inside, is_tagged e, others)

pub winner_for_iff :
    (cs : List Candidate) (w : Candidate)
    → IsApart cs
    → (winner_for cs ≡ some w) ↔ (Member w cs × Alone w cs)
unfolding winner_for
winner_for_iff [] w apart = (λ h. cc, λ (m, _). absurd m)
winner_for_iff (c ∷ []) w apart = (
  λ h. (inl (sym cc), λ g m. elim m [ inl e ↦ inl (e ∙ cc) | inr n ↦ absurd n ]),
  λ (m, _). elim m [ inl e ↦ ap some (sym e) | inr n ↦ absurd n ],
)
winner_for_iff (c ∷ d ∷ cs) w apart =
    let (below, bounds) = shallowest-least c.depth (d ∷ cs) (shallowest c.depth (d ∷ cs)) refl in
    let least : (g : Candidate) → Member g (c ∷ d ∷ cs) → shallowest c.depth (d ∷ cs) ≤ g.depth =
      λ g m.
        Member-All (λ g. shallowest c.depth (d ∷ cs) ≤ g.depth) (c ∷ d ∷ cs) (below, bounds) m in
    let reached : (g : Candidate) × Member g (c ∷ d ∷ cs)
        × (g.depth ≡ shallowest c.depth (d ∷ cs)) =
      elim (shallowest-reached c.depth (d ∷ cs)) [
        | inl e ↦ (c, inl refl, sym e)
        | inr (g, m, e) ↦ (g, inr m, e)
      ] in
    (
      contest-winner (c ∷ d ∷ cs) apart (shallowest c.depth (d ∷ cs)) least reached w,
      λ (m, alone).
          winner-contest (c ∷ d ∷ cs) apart (shallowest c.depth (d ∷ cs)) least reached w m alone,
    )
