-- ===== src/Tests/Pools.antt =====
-- A pool of two workers that is given a task and destroyed.
use color.Prelude.{ℕ, ◌≡◌, refl, true, [], ◌∷◌, ◌++◌}
use color.Executor.{
  waiting, gone, Pool, new_pool, schedule, stopped, wake, run_worker, Reach, scheduling, stopping,
  running, here, next,
}
use color.Executor.Order.{scheduled-Reach, taken-Reach}

abbrev destroyed : Pool ℕ
destroyed = record {
  workers = waiting ∷ gone ∷ [];
  queue = [];
  stop = true;
  scheduled = 7 ∷ [];
  taken = 7 ∷ [];
}

-- The first worker takes the task, the pool is destroyed, the second returns, and the task ends.
destroyed-Reach : Reach (new_pool 2) destroyed
unfolding new_pool schedule stopped wake run_worker
destroyed-Reach =
    next (next (next (next (next here (scheduling 7 refl)) (running 0)) stopping) (running 1))
      (running 0)

scheduled-Reach_example : destroyed.scheduled ≡ destroyed.taken ++ destroyed.queue
scheduled-Reach_example = scheduled-Reach 2 destroyed-Reach

taken-Reach_example : (destroyed.stop ≡ true) × (destroyed.taken ≡ destroyed.scheduled)
taken-Reach_example = taken-Reach 2 1 destroyed-Reach refl
