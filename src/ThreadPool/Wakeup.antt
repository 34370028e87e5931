-- ===== src/ThreadPool/Wakeup.antt =====
-- `wait_idle` against the notification of `worker_loop`, which is sent without holding `idle_mu_`.
use prediction_market_arbitr.Base.{ℕ, suc, ◌≡◌, refl, false, [], ◌∷◌, arith}
use prediction_market_arbitr.ThreadPool.{
  blocked, Pool, idle_workers, start, enter, push, take, move, count_down, notify, enters, pushes,
  takes, finishes, counts_down, notifies, waits, sees_busy, blocks, Steps, none_yet, then_step,
}

module _ {A : Type 0} where
  -- A thread is blocked in `wait_idle` although all work is done: nothing is in flight, and every
  -- worker is back at its wait, with its notification behind it.
  pub record IsForgotten (n : ℕ) (t : Pool A) : Type 0 where
    pub forgotten : t.waiters ≡ blocked ∷ []
    pub idle : t.inflight ≡ 0
    pub no_tasks : t.tasks ≡ []
    pub going : t.stop ≡ false
    pub workers_wait : t.workers ≡ idle_workers n

  -- With any number of workers, at least one, and a single task of any kind, a thread that calls
  -- `wait_idle` can end up blocked although all work is done and no notification is to come: the last
  -- `notify_all` falls between its reading of the predicate and its block.
  pub lost_wakeup : (n : ℕ) (a : A) → (t : Pool A) × Steps (start (suc n)) t × IsForgotten (suc n) t
  unfolding start enter push take move count_down notify
  lost_wakeup n a = (
    _,
    then_step
        (then_step
          (then_step
            (then_step
              (then_step
                (then_step
                  (then_step (then_step (then_step none_yet (enters a refl)) (pushes [] [] a refl))
                    (takes [] (idle_workers n) a [] refl refl))
                  waits)
                (sees_busy [] [] refl (λ h. omega (arith, h))))
              (finishes [] (idle_workers n) a refl))
            (counts_down [] (idle_workers n) refl))
          (notifies [] (idle_workers n) refl))
        (blocks [] [] refl),
    record { forgotten = refl; idle = refl; no_tasks = refl; going = refl; workers_wait = refl },
  )
