-- ===== src/Pipeline/Rows.antt =====
-- apps/live_pipeline.cpp: what `AsyncJsonlWriter` writes under every interleaving of its threads.
use mathlib.Core.List.{append_assoc}
use prediction_market_arbitr.Base.{
  ℕ, ◌≤◌, ◌≡◌, ◌≢◌, refl, ap, ◌∙◌, sym, ◌⊎◌, inl, inr, true, false, List, [], ◌∷◌, ◌++◌, length,
  length-append, arith,
}
use prediction_market_arbitr.Pipeline.Writer.{
  Hand, waiting, holding, returned, Writer, new_writer, push_row, take_row, append_row, Step,
  enters, pushes, gives_up, takes, appends, returns, stops, flushes, Steps, at_start, and_then,
}

module _ {A : Type 0} where
  -- The row that the worker holds.
  abbrev pub held : Hand A → List A
  held waiting = []
  held (holding a) = a ∷ []
  held returned = []

  pub record IsWriter (w : Writer A) : Type 0 where
    pub in_order : w.accepted ≡ w.written ++ (held w.hand ++ w.queue)
    pub bounded : length w.queue ≤ w.max_queue
    pub drained : (w.hand ≢ returned) ⊎ ((w.stop ≡ true) × (w.queue ≡ []))
    pub complete : (w.flushed ≡ false) ⊎ (w.hand ≡ returned)

  pushed_in_order :
      (acc written queue : List A) (h : Hand A) (a : A)
      → acc ≡ written ++ (held h ++ queue)
      → acc ++ (a ∷ []) ≡ written ++ (held h ++ (queue ++ (a ∷ [])))
  pushed_in_order acc written queue h a e =
      ap (λ (xs : List A). xs ++ (a ∷ [])) e
      ∙ append_assoc written (held h ++ queue) (a ∷ [])
      ∙ ap (λ (xs : List A). written ++ xs) (append_assoc (held h) queue (a ∷ []))

  taken_in_order :
      (acc written queue rest : List A) (h : Hand A) (a : A)
      → h ≡ waiting
      → queue ≡ a ∷ rest
      → acc ≡ written ++ (held h ++ queue)
      → acc ≡ written ++ (a ∷ rest)
  taken_in_order acc written queue rest h a k q e = ground (arith, k, q, e)

  appended_in_order :
      (acc written queue : List A) (h : Hand A) (a : A)
      → h ≡ holding a
      → acc ≡ written ++ (held h ++ queue)
      → acc ≡ (written ++ (a ∷ [])) ++ queue
  appended_in_order acc written queue h a k e =
      e
      ∙ ap (λ (x : Hand A). written ++ (held x ++ queue)) k
      ∙ sym (append_assoc written (a ∷ []) queue)

  Step-IsWriter : {w v : Writer A} → IsWriter w → Step w v → IsWriter v
  unfolding push_row take_row append_row
  Step-IsWriter i (enters a) = ground (arith, i)
  Step-IsWriter {w} i (pushes l r a e s room) = record {
    in_order = pushed_in_order w.accepted w.written w.queue w.hand a i.in_order;
    bounded = omega (arith, room, length-append w.queue (a ∷ []));
    drained = ground (arith, i.drained, s);
    complete = ground (arith, i.complete);
  }
  Step-IsWriter i (gives_up l r a e s) = ground (arith, i)
  Step-IsWriter {w} i (takes a rest k q) = record {
    in_order = taken_in_order w.accepted w.written w.queue rest w.hand a k q i.in_order;
    bounded = omega (arith, i.bounded, ap length q);
    drained = inl (ground arith);
    complete = ground (arith, i.complete, k);
  }
  Step-IsWriter {w} i (appends a k) = record {
    in_order = appended_in_order w.accepted w.written w.queue w.hand a k i.in_order;
    bounded = i.bounded;
    drained = inl (ground arith);
    complete = ground (arith, i.complete, k);
  }
  Step-IsWriter {w} i (returns k s q) = record {
    in_order = i.in_order ∙ ap (λ (x : Hand A). w.written ++ (held x ++ w.queue)) k;
    bounded = i.bounded;
    drained = inr (s, q);
    complete = inr refl;
  }
  Step-IsWriter i (stops s) = ground (arith, i)
  Step-IsWriter {w} i (flushes s k) = record {
    in_order = i.in_order;
    bounded = i.bounded;
    drained = i.drained;
    complete = inr k;
  }

  new_writer-IsWriter : (n : ℕ) → IsWriter (new_writer {A = A} n)
  unfolding new_writer
  new_writer-IsWriter n = record {
    in_order = refl;
    bounded = omega arith;
    drained = inl (ground arith);
    complete = inl refl;
  }

  -- From a new writer on, under every interleaving of the threads, the rows accepted are those that
  -- `JsonlWriter::append` has been called with, then the one that the worker holds, then those queued, in order, and the queue keeps to its bound.
  -- A worker that has returned has left no row, and once the call of `stop_and_flush` that stopped the
  -- writer has returned, so has the worker.
  pub Steps-IsWriter : (n : ℕ) {w : Writer A} → Steps (new_writer n) w → IsWriter w
  Steps-IsWriter n at_start = new_writer-IsWriter n
  Steps-IsWriter n (and_then s t) = Step-IsWriter (Steps-IsWriter n s) t
