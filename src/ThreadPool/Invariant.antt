-- ===== src/ThreadPool/Invariant.antt =====
-- Invariants of the pool's interleavings.
use prediction_market_arbitr.Base.{
  ◌⊎◌, inl, inr, Bool-cases, false, ℕ, zero, suc, ◌+◌, ◌≡◌, refl, sym, ap, ◌∙◌, true, List, [], ◌∷◌,
  ◌++◌, length, length-append, arith,
}
use mathlib.Core.List.{append_assoc, append-nil}
use prediction_market_arbitr.ThreadPool.{
  Waiter, with_waiters, Worker, waiting, running, finished, notifying, exited, Pool, idle_workers,
  start, enter, push, take, move, count_down, notify, Step, enters, pushes, takes, exits, finishes,
  counts_down, notifies, waits, sees_idle, sees_busy, blocks, wakes_spuriously, shuts, Steps,
  none_yet, then_step,
}

module _ {A : Type 0} where
  -- A worker whose task is taken and not yet counted down.
  abbrev pub load : Worker A → ℕ
  load (running a) = 1
  load finished = 1
  load _ = 0

  abbrev pub gone : Worker A → ℕ
  gone exited = 1
  gone _ = 0

  abbrev pub total : (Worker A → ℕ) → List (Worker A) → ℕ
  total f [] = 0
  total f (w ∷ ws) = f w + total f ws

  total-append :
      (f : Worker A → ℕ) (l r : List (Worker A)) → total f (l ++ r) ≡ total f l + total f r
  total-append f [] r = omega arith
  total-append f (w ∷ l) r = omega (arith, total-append f l r)

  total-idle : (f : Worker A → ℕ) (n : ℕ) → f waiting ≡ 0 → total f (idle_workers n) ≡ 0
  total-idle f zero h = refl
  total-idle f (suc n) h = omega (arith, h, total-idle f n h)

  pub record IsPool (s : Pool A) : Type 0 where
    pub counted : s.inflight ≡ length s.entering + length s.tasks + total load s.workers
    pub in_order : s.pushed ≡ s.started ++ s.tasks
    pub drained : (total gone s.workers ≡ 0) ⊎ ((s.stop ≡ true) × (s.tasks ≡ []))
    pub closed : (s.stop ≡ false) ⊎ (s.entering ≡ [])

  -- Moving one worker changes the two totals by what that worker counts for.
  total-moved :
      (f : Worker A → ℕ) (l r ws : List (Worker A)) (w w' : Worker A)
      → ws ≡ l ++ (w ∷ r)
      → total f (l ++ (w' ∷ r)) + f w ≡ total f ws + f w'
  total-moved f l r ws w w' e =
      rw e (omega (arith, total-append f l (w ∷ r), total-append f l (w' ∷ r)))

  closed-not-pushing :
      (s : Pool A) (l r : List A) (a : A) → IsPool s → s.entering ≡ l ++ (a ∷ r) → s.stop ≡ true → ⊥
  closed-not-pushing s l r a i e stopped = elim i.closed [
    | inl going ↦ ground (arith, going, stopped)
    | inr none ↦ omega (arith, ap length e, ap length none, length-append l (a ∷ r))
  ]

  -- A worker that moves on without returning leaves the queue and the number of returned workers.
  drained-moved :
      (s : Pool A) (l r : List (Worker A)) (w w' : Worker A)
      → IsPool s
      → s.workers ≡ l ++ (w ∷ r)
      → gone w ≡ 0
      → gone w' ≡ 0
      → (total gone (l ++ (w' ∷ r)) ≡ 0) ⊎ ((s.stop ≡ true) × (s.tasks ≡ []))
  drained-moved s l r w w' i e g g' = elim i.drained [
    | inl none ↦ inl (omega (arith, none, g, g', total-moved gone l r s.workers w w' e))
    | inr empty ↦ inr empty
  ]

  with_waiters-IsPool : {s : Pool A} (ws : List Waiter) → IsPool s → IsPool (with_waiters ws s)
  with_waiters-IsPool ws i = record {
    counted = i.counted;
    in_order = i.in_order;
    drained = i.drained;
    closed = i.closed;
  }

  start-IsPool : (n : ℕ) → IsPool (start n)
  unfolding start
  start-IsPool n = record {
    counted = omega (arith, total-idle load n refl);
    in_order = refl;
    drained = inl (total-idle gone n refl);
    closed = inr refl;
  }

  Step-IsPool : {s t : Pool A} → IsPool s → Step s t → IsPool t
  unfolding enter push take move count_down notify
  Step-IsPool {s} i (enters a going) = record {
    counted = omega (arith, i.counted);
    in_order = i.in_order;
    drained = i.drained;
    closed = inl going;
  }
  Step-IsPool {s} i (pushes l r a e) = record {
    counted = omega (
      arith,
      i.counted,
      ap length e,
      length-append l (a ∷ r),
      length-append l r,
      length-append s.tasks (a ∷ []),
    );
    in_order =
        ap (λ (x : List A). x ++ (a ∷ [])) i.in_order ∙ append_assoc s.started s.tasks (a ∷ []);
    drained = elim i.drained [
      | inl none ↦ inl none
      | inr (stopped, empty) ↦ absurd (closed-not-pushing s l r a i e stopped)
    ];
    closed = elim (Bool-cases s.stop) [
      | inl stopped ↦ absurd (closed-not-pushing s l r a i e stopped)
      | inr going ↦ inl going
    ];
  }
  Step-IsPool {s} i (takes l r a rest e f) = record {
    counted =
        omega (arith, i.counted, ap length f, total-moved load l r s.workers waiting (running a) e);
    in_order = i.in_order ∙ (ap (◌++◌ s.started) f ∙ sym (append_assoc s.started (a ∷ []) rest));
    drained = elim (drained-moved s l r waiting (running a) i e refl refl) [
      | inl none ↦ inl none
      | inr (stopped, empty) ↦ absurd (omega (arith, ap length f, ap length empty))
    ];
    closed = i.closed;
  }
  Step-IsPool {s} i (exits l r e stopped empty) = record {
    counted = omega (arith, i.counted, total-moved load l r s.workers waiting exited e);
    in_order = i.in_order;
    drained = inr (stopped, empty);
    closed = i.closed;
  }
  Step-IsPool {s} i (finishes l r a e) = record {
    counted = omega (arith, i.counted, total-moved load l r s.workers (running a) finished e);
    in_order = i.in_order;
    drained = drained-moved s l r (running a) finished i e refl refl;
    closed = i.closed;
  }
  Step-IsPool {s} i (counts_down l r e) = record {
    counted = omega (arith, i.counted, total-moved load l r s.workers finished notifying e);
    in_order = i.in_order;
    drained = drained-moved s l r finished notifying i e refl refl;
    closed = i.closed;
  }
  Step-IsPool {s} i (notifies l r e) = record {
    counted = omega (arith, i.counted, total-moved load l r s.workers notifying waiting e);
    in_order = i.in_order;
    drained = drained-moved s l r notifying waiting i e refl refl;
    closed = i.closed;
  }
  Step-IsPool i waits = with_waiters-IsPool _ i
  Step-IsPool i (sees_idle l r e f) = with_waiters-IsPool _ i
  Step-IsPool i (sees_busy l r e f) = with_waiters-IsPool _ i
  Step-IsPool i (blocks l r e) = with_waiters-IsPool _ i
  Step-IsPool i (wakes_spuriously l r e) = with_waiters-IsPool _ i
  Step-IsPool {s} i (shuts e) = record {
    counted = i.counted;
    in_order = i.in_order;
    drained = elim i.drained [ inl none ↦ inl none | inr (stopped, empty) ↦ inr (refl, empty) ];
    closed = inr e;
  }

  pub Steps-IsPool : {s t : Pool A} → IsPool s → Steps s t → IsPool t
  Steps-IsPool i none_yet = i
  Steps-IsPool i (then_step before step) = Step-IsPool (Steps-IsPool i before) step

  -- Under every interleaving of a pool of `n` workers: `inflight_` is the number of tasks that are
  -- counted and not yet pushed, queued, or taken and not yet counted down; tasks are taken in the
  -- order in which they were pushed, none lost and none twice; a worker returns only after the pool
  -- is stopped, and leaves no task in the queue.
  pub start-Steps-IsPool : (n : ℕ) (t : Pool A) → Steps (start n) t → IsPool t
  start-Steps-IsPool n t steps = Steps-IsPool (start-IsPool n) steps

  none_of_length : (xs : List A) → length xs ≡ 0 → xs ≡ []
  none_of_length [] h = refl
  none_of_length (x ∷ xs) h = absurd (omega (arith, h))

  -- When `wait_idle` sees that nothing is in flight, in any reachable state, every task that was
  -- pushed has been taken, in order, no dispatch is between its two halves, and no worker is still
  -- running a task.
  pub idle_of_inflight :
      (n : ℕ) (t : Pool A)
      → Steps (start n) t
      → t.inflight ≡ 0
      → (t.started ≡ t.pushed) × (t.entering ≡ []) × (total load t.workers ≡ 0)
  idle_of_inflight n t steps none =
      let i = start-Steps-IsPool n t steps in
      let empty = none_of_length t.tasks (omega (arith, i.counted, none)) in
      (
        sym (i.in_order ∙ (ap (◌++◌ t.started) empty ∙ append-nil t.started)),
        none_of_length t.entering (omega (arith, i.counted, none)),
        omega (arith, i.counted, none),
      )
