-- ===== src/Tests/Pools.antt =====
-- The thread pool at concrete inputs.
use prediction_market_arbitr.Base.{ℕ, ◌≡◌, refl, []}
use prediction_market_arbitr.ThreadPool.{
  Pool, start, enter, push, enters, pushes, Steps, none_yet, then_step, takes, take, finishes,
  counts_down, count_down, move, finished, idle_workers,
}
use prediction_market_arbitr.ThreadPool.Invariant.{
  IsPool, start-Steps-IsPool, idle_of_inflight, total, load,
}
use prediction_market_arbitr.ThreadPool.Wakeup.{IsForgotten, lost_wakeup}

-- Two workers; one task is counted and pushed.
abbrev pushed_pool : Pool ℕ
pushed_pool = push 7 [] (enter 7 (start 2))

pushed_pool-Steps : Steps (start 2) pushed_pool
unfolding start enter
pushed_pool-Steps = then_step (then_step none_yet (enters 7 refl)) (pushes [] [] 7 refl)

start-Steps-IsPool_example : IsPool pushed_pool
start-Steps-IsPool_example = start-Steps-IsPool 2 pushed_pool pushed_pool-Steps

-- The task has been run and counted down.
abbrev done_pool : Pool ℕ
done_pool =
    count_down [] (idle_workers 1)
      (move [] (idle_workers 1) finished (take [] (idle_workers 1) 7 [] pushed_pool))

done_pool-Steps : Steps (start 2) done_pool
unfolding start enter push take move count_down
done_pool-Steps =
    then_step
      (then_step (then_step pushed_pool-Steps (takes [] (idle_workers 1) 7 [] refl refl))
        (finishes [] (idle_workers 1) 7 refl))
      (counts_down [] (idle_workers 1) refl)

done_pool-idle : done_pool.inflight ≡ 0
unfolding start enter push take move count_down
done_pool-idle = refl

idle_of_inflight_example :
    (done_pool.started ≡ done_pool.pushed)
    × (done_pool.entering ≡ [])
    × (total load done_pool.workers ≡ 0)
idle_of_inflight_example = idle_of_inflight 2 done_pool done_pool-Steps done_pool-idle

lost_wakeup_example : (t : Pool ℕ) × Steps (start 1) t × IsForgotten 1 t
lost_wakeup_example = lost_wakeup 0 7
