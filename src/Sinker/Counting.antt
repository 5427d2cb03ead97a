-- ===== src/Sinker/Counting.antt =====
-- What the number that Sink returns says.
use bqsink.Common.{
  ℕ, suc, ◌≡◌, refl, ap, sym, ◌∙◌, Bool, Option, none, some, List, [], ◌∷◌, arith, ◌==◌, length,
  Bool-cases, inl, inr,
}
use bqsink.Fault.{Error, Result, ok, err}
use bqsink.Exec.{bind-ok}
use bqsink.Sinker.{
  Batch, nil_batch, single, slice, Row, Handed, Calls, Sinker, elements, rows_of, batch_row_type,
  start, prepare, prepare_all, handed_over, deliver, after_start, of_type, send_rows, send, settle,
  sink, accounted, wait_for,
}

-- How many rows a batch has.
abbrev pub size : {V : Type 0} → Batch V → ℕ
size nil_batch = 0
size (single v) = 1
size (slice vs) = length vs

accounted-none : (n sent : ℕ) (e : Option Error) → accounted n sent e ≡ none → n ≡ sent
accounted-none n sent (some e) h = cc
accounted-none n sent none h = ground arith

elements-length :
    {V : Type 0} (vs : List (Option V)) (out : List V)
    → elements vs ≡ ok out
    → length out ≡ length vs
unfolding elements
elements-length [] out h = ground (arith, h)
elements-length (none ∷ vs) out h = cc
elements-length (some v ∷ vs) out h = go (λ l e. elements-length vs l e) (elements vs) refl h
  where
    go :
        ((l : List _) → elements vs ≡ ok l → length l ≡ length vs)
        → (r : Result (List _)) → elements vs ≡ r
        → (elim r [ ok rest ↦ ok (v ∷ rest) | err e ↦ err e ]) ≡ ok out
        → length out ≡ suc (length vs)
    go ih (ok rest) e k = ground (arith, ih rest e, k)
    go ih (err e) q k = cc

rows_of-length : {V : Type 0} (b : Batch V) (vs : List V) → rows_of b ≡ ok vs → length vs ≡ size b
unfolding rows_of
rows_of-length nil_batch vs h = cc
rows_of-length (single v) vs h = ground (arith, h)
rows_of-length (slice l) vs h = elements-length l vs h

module _ {V C H W : Type 0} (k : Calls V C H W) where
  prepare_all-length :
      (fills : Bool) (vs : List V) (w w' : W) (out : List (Row C))
      → prepare_all k fills vs w ≡ (ok out, w')
      → length out ≡ length vs
  unfolding prepare_all
  prepare_all-length fills [] w w' out h = ground (arith, ap (λ p. p.0) h)
  prepare_all-length fills (v ∷ vs) w w' out h =
      let (row, x, first, rest) = bind-ok (prepare k fills v) _ h in
      let (rows, y, second, last) = bind-ok (prepare_all k fills vs) _ rest in
      ground (arith, prepare_all-length fills vs x y rows second, ap (λ p. p.0) last)

  deliver-sent :
      (fills : Bool) (vs : List V) (w w' : W) (r : Handed H) (sent : ℕ)
      → deliver k fills vs w ≡ (ok (r, sent), w')
      → sent ≡ length vs
  unfolding deliver
  deliver-sent fills vs w w' r sent h =
      let (out, x, first, rest) = bind-ok (prepare_all k fills vs) _ h in
      let (result, y, second, last) = bind-ok (k.write_rows out) _ rest in
      pick result out (prepare_all-length fills vs w x out first) (ap (λ p. p.0) last)
    where
      pick :
          (o : Option H) (out : List (Row C))
          → length out ≡ length vs
          → handed_over k (length out) o ≡ ok (r, sent)
          → sent ≡ length vs
      pick none out e h = cc
      pick (some g) out e h = ground (arith, e, h)

  send-sent :
      (b : Batch V) (s s' : Sinker) (w w' : W) (r : Handed H) (sent : ℕ)
      → send k b s w ≡ (ok (r, sent), s', w')
      → sent ≡ size b
  unfolding send
  send-sent b s s' w w' r sent h = go (rows_of b) refl h
    where
      started :
          (vs : List V) (p : Result (Unit {0}) × Sinker × W)
          → after_start k vs p ≡ (ok (r, sent), s', w')
          → sent ≡ length vs
      started vs (err e, t, x) q = cc
      started vs (ok u, t, x) q = deliver-sent t.fills vs x w' r sent (ap (λ z. (z.0, z.2)) q)

      typed :
          (vs : List V) (t : Result ℕ)
          → of_type k vs t s w ≡ (ok (r, sent), s', w')
          → sent ≡ length vs
      typed vs (err e) q = cc
      typed vs (ok t) q = elim (Bool-cases (t == s.row_type)) [
        | inl same ↦ started vs (start k s w) (rw same at q)
        | inr other ↦ let q' = rw other at q in cc
      ]

      go :
          (p : Result (List V))
          → rows_of b ≡ p
          → send_rows k p s w ≡ (ok (r, sent), s', w')
          → sent ≡ size b
      go (err e) q g = cc
      go (ok []) q g = ground (arith, rows_of-length b [] q, ap (λ z. z.0) g)
      go (ok (v ∷ vs)) q g = typed (v ∷ vs) (batch_row_type k v vs) g ∙ rows_of-length b (v ∷ vs) q

  -- Whatever the writer reports: if Sink returns no error, the number that it returns is the number
  -- of rows that it was given.
  pub sink-counts :
      (b : Batch V) (s s' : Sinker) (w w' : W) (n : ℕ)
      → sink k b s w ≡ ((n, none), s', w')
      → n ≡ size b
  unfolding sink
  sink-counts b s s' w w' n h = go (send k b s w) refl h
    where
      go :
          (p : Result (Handed H × ℕ) × Sinker × W)
          → send k b s w ≡ p
          → settle k p ≡ ((n, none), s', w')
          → n ≡ size b
      go (err e, t, x) q g = cc
      go (ok (r, sent), t, x) q g =
          let a = accounted-none _ sent (wait_for k r x).0.1 (ap (λ z. z.0.1) g) in
          sym (ap (λ z. z.0.0) g) ∙ a ∙ send-sent b s t w x r sent q
