-- ===== src/Sinker/Once.antt =====
-- The one start of a Sinker: the migration runs once at most, and a failure of it is final.
use bqsink.Common.{
  ℕ, suc, ◌+◌, ◌≤◌, String, ◌≡◌, ◌⊎◌, refl, ap, sym, ◌∙◌, Bool, true, false, Option, none, some,
  List, [], ◌∷◌, arith, ◌==◌, if◌then◌else◌, Bool-cases, inl, inr,
}
use bqsink.Fault.{Error, message, Result, ok, err}
use bqsink.Exec.{Exec, ◌>>=◌, ◌>>◌, wrapping, pure, lift}
use bqsink.Column.{Schema}
use bqsink.Sinker.{
  Batch, nil_batch, single, slice, elements, Row, Handed, resolved, handed, Calls, Sinker, rows_of,
  batch_row_type, reconcile, start, fill_in, prepare, prepare_all, deliver, after_start, of_type,
  send_rows, send, settle, sink,
}

no_elements : {V : Type 0} (vs : List (Option V)) → elements vs ≡ ok [] → slice vs ≡ slice []
unfolding elements
no_elements [] h = refl
no_elements (none ∷ vs) h = cc
no_elements (some v ∷ vs) h = go (elements vs) h
  where
    go :
        (r : Result (List _))
        → (elim r [ ok rest ↦ ok (v ∷ rest) | err e ↦ err e ]) ≡ ok []
        → slice (some v ∷ vs) ≡ slice []
    go (ok rest) h = cc
    go (err e) h = cc

module _ {V C H W : Type 0} (k : Calls V C H W) where
  -- Sink with each of the batches, one after another.
  unfoldable pub sinks : List (Batch V) → Sinker → W → Sinker × W
  sinks [] s w = (s, w)
  sinks (b ∷ bs) s w = let (r, s', w') = sink k b s w in sinks bs s' w'

  -- A count in the world that a migration raises by one and that no other call changes.
  pub record Counts (count : W → ℕ) : Type 0 where
    pub migrates : (w : W) → count (k.migrate w).1 ≡ suc (count w)
    pub binds : (fs : Schema) (w : W) → count (k.bind_schema fs w).1 ≡ count w
    pub ids : (w : W) → count (k.new_id w).1 ≡ count w
    pub fills : (id : String) (v : V) (w : W) → count (k.fill_row id v w).1 ≡ count w
    pub writes : (rows : List (Row C)) (w : W) → count (k.write_rows rows w).1 ≡ count w
    pub waits : (h : H) (w : W) → count (k.wait h w).1 ≡ count w

  module _ (count : W → ℕ) (c : Counts count) where
    -- A call that leaves the count alone.
    record Keeps {A : Type 0} (m : Exec W A) : Type 0 where
      pub at : (w : W) → count (m w).1 ≡ count w

    bind-Keeps :
        {A B : Type 0} (m : Exec W A) (f : A → Exec W B)
        → Keeps m
        → ((a : A) → Keeps (f a))
        → Keeps (m >>= f)
    bind-Keeps m f h g = record { at = λ w. go w (m w) refl }
      where
        go : (w : W) (p : Result _ × W) → m w ≡ p → count ((m >>= f) w).1 ≡ count w
        go w (ok a, x) e = rw e ((g a).at x ∙ sym (ap (λ p. count p.1) e) ∙ h.at w)
        go w (err q, x) e = rw e (sym (ap (λ p. count p.1) e) ∙ h.at w)

    wrapping-Keeps : {A : Type 0} (text : String) (m : Exec W A) → Keeps m → Keeps (wrapping text m)
    wrapping-Keeps text m h = record { at = λ w. go w (m w) refl }
      where
        go : (w : W) (p : Result _ × W) → m w ≡ p → count (wrapping text m w).1 ≡ count w
        go w (ok a, x) e = rw e (sym (ap (λ p. count p.1) e) ∙ h.at w)
        go w (err q, x) e = rw e (sym (ap (λ p. count p.1) e) ∙ h.at w)

    if-Keeps :
        {A : Type 0} (b : Bool) (m n : Exec W A) → Keeps m → Keeps n → Keeps (if b then m else n)
    if-Keeps true m n h g = h
    if-Keeps false m n h g = g

    pure-Keeps : {A : Type 0} (r : Result A) → Keeps (lift {W = W} r)
    pure-Keeps r = record { at = λ w. refl }

    prepare-Keeps : (fills : Bool) (v : V) → Keeps (prepare k fills v)
    unfolding prepare
    prepare-Keeps fills v =
        bind-Keeps {A = String} {B = Row C} (wrapping "bqsink" k.new_id) _
          (wrapping-Keeps "bqsink" k.new_id (record { at = c.ids }))
          (λ id.
            bind-Keeps {A = Unit {0}} {B = Row C} (if k.is_nil v then _ else _) _
              (if-Keeps (k.is_nil v) (lift (err _)) (lift (ok tt)) (pure-Keeps _) (pure-Keeps _))
              (λ u.
                bind-Keeps {A = V} {B = Row C} (if fills then fill_in k id v else pure v) _
                  (if-Keeps fills (fill_in k id v) (lift (ok v))
                    (if-Keeps (k.is_filler v) _ (lift (err _))
                      (wrapping-Keeps _ (k.fill_row id v) (record { at = c.fills id v }))
                      (pure-Keeps _))
                    (pure-Keeps (ok v)))
                  (λ rv.
                    bind-Keeps {A = C} {B = Row C} (lift (k.marshal_row rv)) _ (pure-Keeps _)
                      (λ values. pure-Keeps (ok _)))))

    prepare_all-Keeps : (fills : Bool) (vs : List V) → Keeps (prepare_all k fills vs)
    unfolding prepare_all
    prepare_all-Keeps fills [] = pure-Keeps (ok [])
    prepare_all-Keeps fills (v ∷ vs) =
        bind-Keeps {A = Row C} {B = List (Row C)} (prepare k fills v) _ (prepare-Keeps fills v)
          (λ row.
            bind-Keeps {A = List (Row C)} {B = List (Row C)} (prepare_all k fills vs) _
              (prepare_all-Keeps fills vs) (λ rows. pure-Keeps (ok _)))

    deliver-Keeps : (fills : Bool) (vs : List V) → Keeps (deliver k fills vs)
    unfolding deliver
    deliver-Keeps fills vs =
        bind-Keeps {A = List (Row C)} {B = Handed H × ℕ} (prepare_all k fills vs) _
          (prepare_all-Keeps fills vs)
          (λ out.
            bind-Keeps {A = Option H} {B = Handed H × ℕ} (k.write_rows out) _
              (record { at = c.writes out }) (λ result. pure-Keeps _))

    -- How many migrations a Sinker may still run.
    left : Sinker → ℕ
    left s = elim s.started [ none ↦ 1 | some outcome ↦ 0 ]

    -- What a step may do to the count and to what is left.
    Spends : {A : Type 0} → Sinker → W → A × Sinker × W → Type 0
    Spends s w p = count p.2 + left p.1 ≤ count w + left s

    reconcile-count : (s : Sinker) (w : W) → count (reconcile k s w).1 ≤ suc (count w)
    unfolding reconcile
    reconcile-count s w = elim (Bool-cases s.connected) [
      | inl on ↦ rw on (go (k.migrate w) refl)
      | inr off ↦ rw off (ground (arith, c.binds s.schema w))
    ]
      where
        go :
            (p : Result (Unit {0}) × W)
            → k.migrate w ≡ p
            → count ((do k.migrate; k.bind_schema s.schema) w).1 ≤ suc (count w)
        go (ok u, x) e =
            rw e (ground (arith, c.binds s.schema x, c.migrates w, ap (λ p. count p.1) e))
        go (err q, x) e = rw e (ground (arith, c.migrates w, ap (λ p. count p.1) e))

    start-Spends : (s : Sinker) (w : W) → Spends s w (start k s w)
    unfolding start left Spends
    start-Spends s w = go s.started refl
      where
        go : (o : Option (Result (Unit {0}))) → s.started ≡ o → Spends s w (start k s w)
        go (some outcome) e = rw e (ground arith)
        go none e = rw e (ground (arith, reconcile-count s w))

    send-Spends : (b : Batch V) (s : Sinker) (w : W) → Spends s w (send k b s w)
    unfolding send Spends
    send-Spends b s w = go (rows_of b)
      where
        after :
            (vs : List V) (p : Result (Unit {0}) × Sinker × W)
            → Spends s w p
            → Spends s w (after_start k vs p)
        after vs (err e, t, x) h = h
        after vs (ok u, t, x) h = ground (arith, h, (deliver-Keeps t.fills vs).at x)

        typed : (vs : List V) (t : Result ℕ) → Spends s w (of_type k vs t s w)
        typed vs (err e) = ground arith
        typed vs (ok t) = elim (Bool-cases (t == s.row_type)) [
          | inl same ↦ rw same (after vs (start k s w) (start-Spends s w))
          | inr other ↦ rw other (ground arith)
        ]

        go : (p : Result (List V)) → Spends s w (send_rows k p s w)
        go (err e) = ground arith
        go (ok []) = ground arith
        go (ok (v ∷ vs)) = typed (v ∷ vs) (batch_row_type k v vs)

    sink-Spends : (b : Batch V) (s : Sinker) (w : W) → Spends s w (sink k b s w)
    unfolding sink Spends
    sink-Spends b s w = go (send k b s w) (send-Spends b s w)
      where
        go : (p : Result (Handed H × ℕ) × Sinker × W) → Spends s w p → Spends s w (settle k p)
        go (err e, t, x) h = h
        go (ok (resolved r, sent), t, x) h = h
        go (ok (handed r, sent), t, x) h = ground (arith, h, c.waits r x)

    sinks-Spends :
        (bs : List (Batch V)) (s : Sinker) (w : W)
        → count (sinks bs s w).1 + left (sinks bs s w).0 ≤ count w + left s
    unfolding sinks Spends
    sinks-Spends [] s w = ground arith
    sinks-Spends (b ∷ bs) s w =
        ground (arith, sink-Spends b s w, sinks-Spends bs (sink k b s w).1 (sink k b s w).2)

    -- Whatever batches Sink is handed, one after another, and whatever comes of them: a Sinker that
    -- has not started runs the migration at most once in all, and one that has started never again.
    pub sinks-migrate_once :
        (bs : List (Batch V)) (s : Sinker) (w : W)
        → (s.started ≡ none → count (sinks bs s w).1 ≤ suc (count w))
          × ((outcome : Result (Unit {0}))
              → s.started ≡ some outcome
              → count (sinks bs s w).1 ≤ count w)
    unfolding left
    sinks-migrate_once bs s w = (
      λ h. ground (arith, sinks-Spends bs s w, h),
      λ outcome h. ground (arith, sinks-Spends bs s w, h),
    )

  -- Once a start has failed, Sink does nothing, whatever the batch: the world and the Sinker stay as
  -- they are, and it returns 0 with an error, or 0 without one for a slice of no rows.
  pub sink-stays_failed :
      (b : Batch V) (s : Sinker) (w : W) (e : Error)
      → s.started ≡ some (err e)
      → ((b ≡ slice []) × (sink k b s w ≡ ((0, none), s, w)))
        ⊎ ((x : Error) × (sink k b s w ≡ ((0, some x), s, w)))
  unfolding sink send start rows_of elements
  sink-stays_failed b s w e h = on_batch b
    where
      typed :
          (vs : List V) (t : Result ℕ)
          → (x : Error) × (settle k (of_type k vs t s w) ≡ ((0, some x), s, w))
      typed vs (err q) = (q, refl)
      typed vs (ok t) = elim (Bool-cases (t == s.row_type)) [
        | inl same ↦ (e, rw (same, h))
        | inr other ↦ (message "bqsink: this Sinker writes another type", rw other)
      ]

      refused :
          (r : Result (List V))
          → ((r ≡ ok []) × (settle k (send_rows k r s w) ≡ ((0, none), s, w)))
            ⊎ ((x : Error) × (settle k (send_rows k r s w) ≡ ((0, some x), s, w)))
      refused (err q) = inr (q, refl)
      refused (ok []) = inl (refl, refl)
      refused (ok (v ∷ vs)) = inr (typed (v ∷ vs) (batch_row_type k v vs))

      on_batch :
          (c : Batch V)
          → ((c ≡ slice []) × (settle k (send_rows k (rows_of c) s w) ≡ ((0, none), s, w)))
            ⊎ ((x : Error) × (settle k (send_rows k (rows_of c) s w) ≡ ((0, some x), s, w)))
      on_batch nil_batch = inr (_, refl)
      on_batch (single v) = inr (typed (v ∷ []) (batch_row_type k v []))
      on_batch (slice vs) = elim (refused (elements vs)) [
        | inl (none_left, e) ↦ inl (no_elements vs none_left, e)
        | inr q ↦ inr q
      ]
