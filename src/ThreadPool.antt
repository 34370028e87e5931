-- ===== src/ThreadPool.antt =====
-- src/core/thread_pool.cpp: `ThreadPool`, as a step relation. Each step is one access to shared state
-- or one critical section; the steps of the threads interleave freely. `tasks_` is changed under
-- `mu_`, `inflight_` is atomic, and the worker that counts down and notifies does not hold `idle_mu_`.
use prediction_market_arbitr.Base.{
  ℕ, zero, suc, ◌+◌, ◌-◌, ◌≡◌, ◌≢◌, Bool, true, false, List, [], ◌∷◌, ◌++◌, map,
}
pub mod Invariant
pub mod Wakeup

-- Where a worker is in `worker_loop`: at the wait for a task, in `job()`, before `fetch_sub`, before
-- `notify_all`, or returned.
pub data Worker (A : Type 0) : Type 0 where
  waiting : Worker A
  running : A → Worker A
  finished notifying exited : Worker A

-- Where a thread is in `wait_idle`: before the predicate is read, between a predicate that was false
-- and the block, blocked, or returned.
pub data Waiter : Type 0 where
  looking blocking blocked returned : Waiter

-- The members of `ThreadPool`, the threads, and the dispatches that have counted their task but not
-- yet pushed it. `pushed` and `started` record the history, the oldest task first.
pub record Pool (A : Type 0) : Type 0 where
  pub workers : List (Worker A)
  pub tasks : List A
  pub stop : Bool
  pub inflight : ℕ
  pub entering : List A
  pub waiters : List Waiter
  pub pushed : List A
  pub started : List A

-- `idle_cv_.notify_all`
abbrev pub wake : Waiter → Waiter
wake blocked = looking
wake w = w

module _ {A : Type 0} where
  abbrev pub idle_workers : ℕ → List (Worker A)
  idle_workers zero = []
  idle_workers (suc n) = waiting ∷ idle_workers n

  -- The constructor.
  unfoldable pub start : ℕ → Pool A
  start n = record {
    workers = idle_workers n;
    tasks = [];
    stop = false;
    inflight = 0;
    entering = [];
    waiters = [];
    pushed = [];
    started = [];
  }

  -- `inflight_.fetch_add(1)` of `dispatch`.
  unfoldable pub enter : A → Pool A → Pool A
  enter a s = record s { inflight = s.inflight + 1; entering = a ∷ s.entering }

  -- `tasks_.push` of `dispatch`, which leaves the other dispatches under way.
  unfoldable pub push : A → List A → Pool A → Pool A
  push a others s = record s {
    entering = others;
    tasks = s.tasks ++ (a ∷ []);
    pushed = s.pushed ++ (a ∷ []);
  }

  -- A worker between `before` and `after` takes the front of the queue.
  unfoldable pub take : (before after : List (Worker A)) → A → List A → Pool A → Pool A
  take before after a rest s = record s {
    workers = before ++ (running a ∷ after);
    tasks = rest;
    started = s.started ++ (a ∷ []);
  }

  -- A worker between `before` and `after` moves on.
  unfoldable pub move : (before after : List (Worker A)) → Worker A → Pool A → Pool A
  move before after w s = record s { workers = before ++ (w ∷ after) }

  -- `inflight_.fetch_sub(1)`. The count is then positive, so it is a number.
  unfoldable pub count_down : (before after : List (Worker A)) → Pool A → Pool A
  count_down before after s = record s {
    workers = before ++ (notifying ∷ after);
    inflight = s.inflight - 1;
  }

  unfoldable pub notify : (before after : List (Worker A)) → Pool A → Pool A
  notify before after s = record s {
    workers = before ++ (waiting ∷ after);
    waiters = map wake s.waiters;
  }

  abbrev pub with_waiters : List Waiter → Pool A → Pool A
  with_waiters ws s = record s { waiters = ws }

  -- `dispatch` is not called on a pool that is being destroyed.
  pub data Step (s : Pool A) : Pool A → Type 0 where
    enters : (a : A) → s.stop ≡ false → Step s (enter a s)
    pushes : (l r : List A) (a : A) → s.entering ≡ l ++ (a ∷ r) → Step s (push a (l ++ r) s)
    takes :
        (l r : List (Worker A)) (a : A) (rest : List A)
        → s.workers ≡ l ++ (waiting ∷ r)
        → s.tasks ≡ a ∷ rest
        → Step s (take l r a rest s)
    exits :
        (l r : List (Worker A))
        → s.workers ≡ l ++ (waiting ∷ r)
        → s.stop ≡ true
        → s.tasks ≡ []
        → Step s (move l r exited s)
    finishes :
        (l r : List (Worker A)) (a : A)
        → s.workers ≡ l ++ (running a ∷ r)
        → Step s (move l r finished s)
    counts_down :
        (l r : List (Worker A)) → s.workers ≡ l ++ (finished ∷ r) → Step s (count_down l r s)
    notifies : (l r : List (Worker A)) → s.workers ≡ l ++ (notifying ∷ r) → Step s (notify l r s)
    waits : Step s (with_waiters (looking ∷ s.waiters) s)
    sees_idle :
        (l r : List Waiter)
        → s.waiters ≡ l ++ (looking ∷ r)
        → s.inflight ≡ 0
        → Step s (with_waiters (l ++ (returned ∷ r)) s)
    sees_busy :
        (l r : List Waiter)
        → s.waiters ≡ l ++ (looking ∷ r)
        → s.inflight ≢ 0
        → Step s (with_waiters (l ++ (blocking ∷ r)) s)
    blocks :
        (l r : List Waiter)
        → s.waiters ≡ l ++ (blocking ∷ r)
        → Step s (with_waiters (l ++ (blocked ∷ r)) s)
    wakes_spuriously :
        (l r : List Waiter)
        → s.waiters ≡ l ++ (blocked ∷ r)
        → Step s (with_waiters (l ++ (looking ∷ r)) s)
    shuts : s.entering ≡ [] → Step s (record s { stop = true })

  pub data Steps (s : Pool A) : Pool A → Type 0 where
    none_yet : Steps s s
    then_step : {t u : Pool A} → Steps s t → Step t u → Steps s u
