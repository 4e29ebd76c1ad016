-- ===== src/Executor.antt =====
-- src/server/thread_pool_executor.h: the pool on which net_http runs its callbacks. A worker is where
-- its loop stands; the mutex makes what a worker does under it one step.
use color.Prelude.{
  ℕ, zero, suc, ◌≡◌, Bool, true, false, ◌&&◌, Option, none, some, List, [], ◌∷◌, ◌++◌,
  if◌then◌else◌, get_elem?,
}
pub mod Order

-- A worker waits for a task, runs one, or has returned.
pub data Worker (T : Type 0) : Type 0 where
  waiting : Worker T
  busy : T → Worker T
  gone : Worker T

pub record Pool (T : Type 0) : Type 0 where
  pub workers : List (Worker T)
  pub queue : List T
  pub stop : Bool
  -- the tasks given to `Schedule`, and those that a worker took, in their order
  pub scheduled : List T
  pub taken : List T

module _ {T : Type 0} where
  waiting_workers : ℕ → List (Worker T)
  waiting_workers zero = []
  waiting_workers (suc n) = waiting ∷ waiting_workers n

  -- `ThreadPoolExecutor(num_threads)`
  unfoldable pub new_pool : ℕ → Pool T
  unfolding waiting_workers
  new_pool num_threads = record {
    workers = waiting_workers num_threads;
    queue = [];
    stop = false;
    scheduled = [];
    taken = [];
  }

  -- `Schedule`
  unfoldable pub schedule : T → Pool T → Pool T
  schedule fn p = record p { queue = p.queue ++ fn ∷ []; scheduled = p.scheduled ++ fn ∷ [] }

  -- The first half of the destructor; it then waits for the workers to return.
  unfoldable pub stopped : Pool T → Pool T
  stopped p = record p { stop = true }

  set_worker : ℕ → Worker T → List (Worker T) → List (Worker T)
  set_worker n w [] = []
  set_worker zero w (v ∷ ws) = w ∷ ws
  set_worker (suc n) w (v ∷ ws) = v ∷ set_worker n w ws

  -- What a waiting worker does under the mutex: it goes on waiting, returns, or takes the front.
  unfoldable pub wake : ℕ → List T → Pool T → Pool T
  unfolding set_worker
  wake n [] p = if p.stop then record p { workers = set_worker n gone p.workers } else p
  wake n (fn ∷ queue) p = record p {
    workers = set_worker n (busy fn) p.workers;
    queue = queue;
    taken = p.taken ++ fn ∷ [];
  }

  -- The next step of worker `n`; `fn()` of a busy one comes back.
  unfoldable pub run_worker : ℕ → Option (Worker T) → Pool T → Pool T
  unfolding set_worker
  run_worker n none p = p
  run_worker n (some waiting) p = wake n p.queue p
  run_worker n (some (busy fn)) p = record p { workers = set_worker n waiting p.workers }
  run_worker n (some gone) p = p

-- What can happen, in any order. Nothing is scheduled on a pool that is being destroyed.
pub data Step {T : Type 0} (p : Pool T) : Pool T → Type 0 where
  scheduling : (fn : T) → p.stop ≡ false → Step p (schedule fn p)
  stopping : Step p (stopped p)
  running : (n : ℕ) → Step p (run_worker n (get_elem? p.workers n) p)

pub data Reach {T : Type 0} (p : Pool T) : Pool T → Type 0 where
  here : Reach p p
  next : {q r : Pool T} → Reach p q → Step q r → Reach p r
