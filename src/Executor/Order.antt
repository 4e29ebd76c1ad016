-- ===== src/Executor/Order.antt =====
-- thread_pool_executor.h: the order in which the workers take the tasks, and the destructor.
use color.Prelude.{
  ℕ, zero, suc, ◌≡◌, ◌≢◌, refl, ap, sym, ◌∙◌, Bool, true, false, Option, none, some, List, [], ◌∷◌,
  ◌++◌, if◌then◌else◌, get_elem?, append_assoc, append-nil, inl, inr, ◌⊎◌,
}
use color.Executor.{
  Worker, waiting, busy, gone, Pool, new_pool, waiting_workers, schedule, stopped, set_worker, wake,
  run_worker, Step, scheduling, stopping, running, Reach, here, next,
}

either : (P : Bool → Type 0) (b : Bool) → (b ≡ true → P true) → (b ≡ false → P false) → P b
either P true h k = h refl
either P false h k = k refl

module _ {T : Type 0} where
  -- What a worker that has returned has seen.
  record Fair (p : Pool T) : Type 0 where
    split : p.scheduled ≡ p.taken ++ p.queue
    drained : (n : ℕ) → get_elem? p.workers n ≡ some gone → (p.stop ≡ true) × (p.queue ≡ [])

  get_elem?-set_worker :
      (m n : ℕ) (w : Worker T) (ws : List (Worker T))
      → get_elem? (set_worker n w ws) m ≡ some gone
      → (w ≡ gone) ⊎ (get_elem? ws m ≡ some gone)
  unfolding set_worker
  get_elem?-set_worker m n w [] h = inr h
  get_elem?-set_worker zero zero w (v ∷ ws) h = inl (cc)
  get_elem?-set_worker (suc m) zero w (v ∷ ws) h = inr h
  get_elem?-set_worker zero (suc n) w (v ∷ ws) h = inr h
  get_elem?-set_worker (suc m) (suc n) w (v ∷ ws) h = get_elem?-set_worker m n w ws h

  wake-Fair :
      (n : ℕ) (queue : List T) (p : Pool T) → p.queue ≡ queue → Fair p → Fair (wake n queue p)
  unfolding wake
  wake-Fair n [] p e v =
      either (λ b. Fair (if b then record p { workers = set_worker n gone p.workers } else p))
        p.stop
        (λ stop. record {
          split = v.split;
          drained = λ m h. elim (get_elem?-set_worker m n gone p.workers h) [
            | inl same ↦ (stop, e)
            | inr old ↦ v.drained m old
          ];
        })
        (λ _. v)
  wake-Fair n (fn ∷ queue) p e v = record {
    split = v.split ∙ ap (λ q. p.taken ++ q) e ∙ sym (append_assoc p.taken (fn ∷ []) queue);
    drained = λ m h. elim (get_elem?-set_worker m n (busy fn) p.workers h) [
      | inl impossible ↦ absurd (cc)
      | inr old ↦ (let emptied = (v.drained m old).1 in absurd (cc))
    ];
  }

  run_worker-Fair : (n : ℕ) (w : Option (Worker T)) (p : Pool T) → Fair p → Fair (run_worker n w p)
  unfolding run_worker
  run_worker-Fair n none p v = v
  run_worker-Fair n (some waiting) p v = wake-Fair n p.queue p refl v
  run_worker-Fair n (some (busy fn)) p v = record {
    split = v.split;
    drained = λ m h. elim (get_elem?-set_worker m n waiting p.workers h) [
      | inl impossible ↦ absurd (cc)
      | inr old ↦ v.drained m old
    ];
  }
  run_worker-Fair n (some gone) p v = v

  Step-Fair : {p q : Pool T} → Step p q → Fair p → Fair q
  unfolding schedule stopped
  Step-Fair {p} (scheduling fn running_still) v = record {
    split = ap (λ ts. ts ++ fn ∷ []) v.split ∙ append_assoc p.taken p.queue (fn ∷ []);
    drained = λ m h. (let stop = (v.drained m h).0 in absurd (cc));
  }
  Step-Fair stopping v = record { split = v.split; drained = λ m h. (refl, (v.drained m h).1) }
  Step-Fair {p} (running n) v = run_worker-Fair n (get_elem? p.workers n) p v

  unreturned : (n m : ℕ) → get_elem? (waiting_workers {T = T} n) m ≢ some gone
  unfolding waiting_workers
  unreturned zero m h = absurd (cc)
  unreturned (suc n) zero h = absurd (cc)
  unreturned (suc n) (suc m) h = unreturned n m h

  Reach-Fair : (n : ℕ) {p : Pool T} → Reach (new_pool n) p → Fair p
  unfolding new_pool
  Reach-Fair n here = record { split = refl; drained = λ m h. absurd (unreturned n m h) }
  Reach-Fair n (next r s) = Step-Fair s (Reach-Fair n r)

-- However many workers run and however their steps interleave, the tasks that were taken are the
-- first ones that were scheduled, in the order of their scheduling and each once; the rest is queued.
pub scheduled-Reach :
    {T : Type 0} (num_threads : ℕ) {p : Pool T}
    → Reach (new_pool num_threads) p
    → p.scheduled ≡ p.taken ++ p.queue
scheduled-Reach num_threads r = (Reach-Fair num_threads r).split

-- Once a worker has returned, the pool is being destroyed and every task that was scheduled has been
-- taken by a worker: the destructor drops none.
pub taken-Reach :
    {T : Type 0} (num_threads n : ℕ) {p : Pool T}
    → Reach (new_pool num_threads) p
    → get_elem? p.workers n ≡ some gone
    → (p.stop ≡ true) × (p.taken ≡ p.scheduled)
taken-Reach num_threads n {p} r returned =
    let v = Reach-Fair num_threads r in
    let (stop, emptied) = v.drained n returned in
    (stop, sym (v.split ∙ ap (λ q. p.taken ++ q) emptied ∙ append-nil p.taken))
