-- ===== src/Storage/Connections.antt =====
-- The connections that a StorageWriter holds open, whatever succeeds and whatever fails.
use bqsink.Common.{
  ℕ, suc, ◌+◌, ◌-◌, ◌≡◌, refl, ap, sym, ◌∙◌, Bool, true, false, Option, none, some, List, [], ◌∷◌,
  arith, String, if◌then◌else◌,
}
use bqsink.Fault.{Error, Result, ok, err}
use bqsink.Exec.{wrapping, lift, ◌>>=◌}
use bqsink.Column.{FieldSchema, Schema}
use bqsink.Storage.{
  Bound, Writer, Library, connect_with, connect, keep_bound, bind_schema, encode_all, write_rows,
  send, close, Sent, appended,
}

pub data Call (Row : Type 0) : Type 0 where
  bind : Schema → Call Row
  write : List Row → Call Row
  close_writer : Call Row

module _ {D N Client Stream Row Ack W : Type 0} (l : Library D N Client Stream Row Ack W) where
  unfoldable pub step : Call Row → Writer D Client Stream × W → Writer D Client Stream × W
  step (bind schema) (v, w) = let (r, v', w') = bind_schema l schema v w in (v', w')
  step (write rows) (v, w) = (v, (write_rows l rows v w).1)
  step close_writer (v, w) = let (r, v', w') = close l v w in (v', w')

  unfoldable pub run : List (Call Row) → Writer D Client Stream × W → Writer D Client Stream × W
  run [] p = p
  run (c ∷ cs) p = run cs (step c p)

  -- A count in the world of the clients that are open.
  pub record Tracks (opens : W → ℕ) : Type 0 where
    pub opened :
        (p : String) (c : Client) (w w' : W)
        → l.open_client p w ≡ (ok c, w')
        → opens w' ≡ suc (opens w)
    pub refused :
        (p : String) (e : Error) (w w' : W) → l.open_client p w ≡ (err e, w') → opens w' ≡ opens w
    pub streams : (c : Client) (n : N) (w : W) → opens (l.open_stream c n w).1 ≡ opens w
    pub closes : (c : Client) (w : W) → opens (l.close_client c w).1 ≡ opens w - 1
    pub ends : (s : Stream) (w : W) → opens (l.close_stream s w).1 ≡ opens w
    pub appends : (s : Stream) (d : List String) (w : W) → opens (l.append s d w).1 ≡ opens w

  -- The clients that a writer holds: one while it is bound and not closed.
  abbrev pub held : Writer D Client Stream → ℕ
  held v = if v.closed then 0 else elim v.bound [ none ↦ 0 | some b ↦ 1 ]

  module _ (opens : W → ℕ) (t : Tracks opens) where
    -- What connecting leaves open: the client of what it returns, and none if it fails.
    Settles : ℕ → Result (Bound D Client Stream) × W → Type 0
    Settles m (ok b, w') = opens w' ≡ suc m
    Settles m (err e, w') = opens w' ≡ m

    connect_with-Settles :
        (schema : Schema) (d : D) (n : N) (c : Client) (m : ℕ) (w : W)
        → opens w ≡ suc m
        → Settles m (connect_with l schema d n c w)
    unfolding connect_with Settles
    connect_with-Settles schema d n c m w h = go (l.open_stream c n w) refl
      where
        go :
            (p : Result Stream × W)
            → l.open_stream c n w ≡ p
            → Settles m (connect_with l schema d n c w)
        go (ok s, x) e = rw e (ground (arith, ap (λ p. opens p.1) e, t.streams c n w))
        go (err q, x) e =
            rw e (ground (arith, ap (λ p. opens p.1) e, t.streams c n w, t.closes c x))

    connect-Settles :
        (project : String) (schema : Schema) (w : W)
        → Settles (opens w) (connect l project schema w)
    unfolding connect Settles
    connect-Settles project schema w = go (l.row_descriptor schema) refl
      where
        client :
            (d : D) (n : N) (p : Result Client × W)
            → l.open_client project w ≡ p
            → Settles (opens w) (
                (wrapping "bqsink: open a Storage Write API client" (l.open_client project)
                    >>= connect_with l schema d n)
                  w)
        client d n (ok c, x) e =
            rw e (connect_with-Settles schema d n c (opens w) x (t.opened project c w x e))
        client d n (err q, x) e = rw e (t.refused project q w x e)

        normal :
            (d : D) (r : Result N)
            → l.normalize d ≡ r
            → Settles (opens w) (
                (wrapping "bqsink: normalize the proto descriptor" (lift (l.normalize d)) >>= λ n.
                wrapping "bqsink: open a Storage Write API client" (l.open_client project)
                >>= connect_with l schema d n)
                  w)
        normal d (ok n) e = rw e (client d n (l.open_client project w) refl)
        normal d (err q) e = rw e refl

        go :
            (r : Result D)
            → l.row_descriptor schema ≡ r
            → Settles (opens w) (connect l project schema w)
        go (ok d) e = rw e (normal d (l.normalize d) refl)
        go (err q) e = rw e refl

    keep-held :
        (v : Writer D Client Stream) (m n : ℕ) (p : Result (Bound D Client Stream) × W)
        → v.closed ≡ false
        → v.bound ≡ none
        → m ≡ n
        → Settles m p
        → opens (keep_bound l v p).2 ≡ n + held (keep_bound l v p).1
    unfolding Settles
    keep-held v m n (ok b, w) c u e h = ground arith
    keep-held v m n (err q, w) c u e h = ground arith

    send-opens :
        (rows : List Row) (b : Bound D Client Stream) (w : W) → opens (send l rows b w).1 ≡ opens w
    send-opens rows b w = go (encode_all l rows b)
      where
        acked :
            (bytes : List String) (p : Result Ack × W)
            → l.append b.stream bytes w ≡ p
            → opens
                ((wrapping "bqsink: append row(s)" (l.append b.stream bytes) >>= λ ack.
                    lift {A = Sent l} (ok (appended ack rows)))
                  w).1
              ≡ opens w
        acked bytes (ok ack, x) e = rw e (sym (ap (λ p. opens p.1) e) ∙ t.appends b.stream bytes w)
        acked bytes (err q, x) e = rw e (sym (ap (λ p. opens p.1) e) ∙ t.appends b.stream bytes w)

        go :
            (r : Result (List String))
            → opens
                ((lift r >>= λ bytes.
                    wrapping "bqsink: append row(s)" (l.append b.stream bytes) >>= λ ack.
                    lift {A = Sent l} (ok (appended ack rows)))
                  w).1
              ≡ opens w
        go (err q) = refl
        go (ok bytes) = acked bytes (l.append b.stream bytes w) refl

    write-opens :
        (rows : List Row) (v : Writer D Client Stream) (w : W)
        → opens (write_rows l rows v w).1 ≡ opens w
    unfolding write_rows
    write-opens [] v w = refl
    write-opens (r ∷ rs) v w = go v.closed v.bound
      where
        go :
            (c : Bool) (o : Option (Bound D Client Stream))
            → opens
                (write_rows l
                  (r ∷ rs)
                  (record { relation = v.relation; bound = o; closed = c })
                  w).1
              ≡ opens w
        go true o = refl
        go false none = refl
        go false (some b) = send-opens (r ∷ rs) b w

    close-held :
        (v : Writer D Client Stream) (w : W) (n : ℕ)
        → opens w ≡ n + held v
        → opens (step close_writer (v, w)).1 ≡ n
    unfolding step close
    close-held v w n h = go v.closed v.bound h
      where
        go :
            (c : Bool) (o : Option (Bound D Client Stream))
            → opens w ≡ n + held (record { relation = v.relation; bound = o; closed = c })
            → opens
                (step close_writer (record { relation = v.relation; bound = o; closed = c }, w)).1
              ≡ n
        go true o h = ground (arith, h)
        go false none h = ground (arith, h)
        go false (some b) h =
            ground (arith, h, t.ends b.stream w, t.closes b.client (l.close_stream b.stream w).1)

    closed_after : (v : Writer D Client Stream) (w : W) → held (step close_writer (v, w)).0 ≡ 0
    unfolding step close
    closed_after v w = go v.closed v.bound
      where
        go :
            (c : Bool) (o : Option (Bound D Client Stream))
            → held
                (step close_writer (record { relation = v.relation; bound = o; closed = c }, w)).0
              ≡ 0
        go true o = refl
        go false none = refl
        go false (some b) = refl

    bind-held :
        (f : FieldSchema) (fs : Schema) (v : Writer D Client Stream) (w : W) (n : ℕ)
        → opens w ≡ n + held v
        → opens (step (bind (f ∷ fs)) (v, w)).1 ≡ n + held (step (bind (f ∷ fs)) (v, w)).0
    unfolding step bind_schema
    bind-held f fs v w n h = go v.closed v.bound h
      where
        go :
            (c : Bool) (o : Option (Bound D Client Stream))
            → (let u : Writer D Client Stream = record {
              relation = v.relation;
              bound = o;
              closed = c;
            } in
                opens w ≡ n + held u
                → opens (step (bind (f ∷ fs)) (u, w)).1 ≡ n + held (step (bind (f ∷ fs)) (u, w)).0)
        go true o h = h
        go false (some b) h = h
        go false none h =
            keep-held _ (opens w) n _ refl refl (ground (arith, h))
              (connect-Settles v.relation.project_id (f ∷ fs) w)

    step-held :
        (c : Call Row) (v : Writer D Client Stream) (w : W) (n : ℕ)
        → opens w ≡ n + held v
        → opens (step c (v, w)).1 ≡ n + held (step c (v, w)).0
    unfolding step bind_schema
    step-held (bind []) v w n h = h
    step-held (bind (f ∷ fs)) v w n h = bind-held f fs v w n h
    step-held (write rows) v w n h = write-opens rows v w ∙ h
    step-held close_writer v w n h = ground (arith, close-held v w n h, closed_after v w)

    -- After any calls, one after another, whichever of the library's calls fail: a writer that started
    -- with no client has one client open if it is bound and not closed, and else none, besides the
    -- clients that were open at the start.
    pub run-held :
        (cs : List (Call Row)) (v : Writer D Client Stream) (w : W)
        → v.bound ≡ none
        → opens (run cs (v, w)).1 ≡ opens w + held (run cs (v, w)).0
    unfolding run
    run-held cs v w h = go cs v w (ground (arith, h))
      where
        go :
            (cs : List (Call Row)) (u : Writer D Client Stream) (x : W)
            → opens x ≡ opens w + held u
            → opens (run cs (u, x)).1 ≡ opens w + held (run cs (u, x)).0
        go [] u x h = h
        go (c ∷ cs) u x h = go cs (step c (u, x)).0 (step c (u, x)).1 (step-held c u x (opens w) h)
