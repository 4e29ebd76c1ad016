-- ===== src/Harness/Refinement/Ticks.antt =====
-- fuzz_main.cpp, run_one: ticks, checkpoints, failovers and both phases as steps of System.
use color.Prelude.{
  ℕ, zero, suc, ◌+◌, ◌≡◌, refl, ap, inl, inr, Bool, true, false, [], ◌∷◌, ◌++◌, ltb, if◌then◌else◌,
  length, get_elem?-last, arith, Bool-cases, inc64,
}
use color.Core.Client.{outstanding}
use color.Core.Server.Resume.{checkpoint}
use color.System.{start, save, restart, pass, here, next}
use color.System.Histories.{mismatches-Reach}
use color.Harness.Link.{Random, new_link}
use color.Harness.Driver.{
  Config, Run, stamping, first_run, generate_part, request_part, resend_loop, step,
}
use color.Harness.Phases.{
  is_checkpoint_step, is_failover_step, take_checkpoint, replace_server, refresh, fail_over,
  advance, is_done, generate_loop, drain_loop, drain_cap, last_run,
}
use color.Harness.Refinement.{
  harness, Traffic, Implements, IsSmall, Refines, Refines-refl, Refines-trans, Refines-if,
}
use color.Harness.Refinement.Sends.{generate_part-Refines, resend_loop-Refines}
use color.Harness.Refinement.Serves.{request_part-Refines, response_part-Refines}

module _ {G P : Type 0} {failing : Bool} where
  advance-Refines : (run : Run G P) → Refines failing run (advance run)
  unfolding advance
  advance-Refines run = record {
    small = λ small. small;
    goes = λ small traffic v. (
      traffic,
      record {
        reach = next v.reach (pass (inc64 run.now));
        flying = v.flying;
        returning = v.returning;
        saved = v.saved;
        silent = v.silent;
      },
    );
  }

  take_checkpoint-Refines : (run : Run G P) → Refines failing run (take_checkpoint run)
  unfolding take_checkpoint
  take_checkpoint-Refines run = record {
    small = λ small. small;
    goes = λ small traffic v. (
      record traffic { checkpoints = traffic.checkpoints ++ checkpoint run.server ∷ [] },
      record {
        reach = next v.reach save;
        flying = v.flying;
        returning = v.returning;
        saved = (length traffic.checkpoints, get_elem?-last traffic.checkpoints _);
        silent = v.silent;
      },
    );
  }

  replace_server-Refines :
      (run : Run G P) → failing ≡ true → Refines failing run (replace_server run)
  unfolding replace_server
  replace_server-Refines run fails = record {
    small = λ small. small;
    goes = λ small traffic v. (
      traffic,
      record {
        reach =
            next v.reach
              (restart v.saved.0 run.last_ckpt stamping run.now true true v.saved.1 fails);
        flying = v.flying;
        returning = v.returning;
        saved = v.saved;
        silent = omega (arith, v.silent, ap length (mismatches-Reach (harness failing) v.reach).1);
      },
    );
  }

  refresh-Refines :
      (cfg : Config P) (i : ℕ) (run : Run G P) → Refines failing run (refresh cfg i run)
  unfolding refresh
  refresh-Refines cfg i run =
      Refines-if (is_checkpoint_step cfg i) (take_checkpoint-Refines run) (Refines-refl run)

  first_run-Implements :
      (cfg : Config P) (rng : G)
      → (traffic : Traffic) × Implements failing (first_run cfg rng) traffic
  unfolding first_run start new_link
  first_run-Implements cfg rng = (
    record { requests = []; responses = []; checkpoints = _; replays = [] },
    record { reach = here; flying = tt; returning = tt; saved = (0, refl); silent = refl },
  )

module _ {G P : Type 0} {failing : Bool} (rand : Random G P) (cfg : Config P) where
  step-Refines :
      (generating : Bool) (run : Run G P) → Refines failing run (step rand cfg generating run)
  unfolding step
  step-Refines generating run =
      let run₁ = if generating then generate_part rand cfg run else run in
      let run₂ = resend_loop rand cfg (outstanding run₁.client) run₁ in
      Refines-trans (Refines-if generating (generate_part-Refines rand cfg run) (Refines-refl run))
        (Refines-trans (resend_loop-Refines rand cfg (outstanding run₁.client) run₁) (
          Refines-trans (request_part-Refines rand run₂)
            (response_part-Refines (request_part rand run₂))))

-- Whether the run has failovers.
abbrev pub has_failovers : {P : Type 0} → Config P → Bool
has_failovers cfg = ltb 0 cfg.failovers

module _ {G P : Type 0} (cfg : Config P) where
  is_failover_step-has_failovers :
      (i : ℕ) (run : Run G P) → is_failover_step cfg i run ≡ true → has_failovers cfg ≡ true
  unfolding is_failover_step
  is_failover_step-has_failovers i run h = ground arith

  fail_over-Refines :
      (i : ℕ) (run : Run G P) → Refines (has_failovers cfg) run (fail_over cfg i run)
  unfolding fail_over
  fail_over-Refines i run = elim (Bool-cases (is_failover_step cfg i run)) [
    | inl now ↦
        rw (now, fail_over) (replace_server-Refines run (is_failover_step-has_failovers i run now))
    | inr later ↦ rw (later, fail_over) (Refines-refl run)
  ]

module _ {G P : Type 0} (rand : Random G P) (cfg : Config P) where
  generate_loop-Refines :
      (left i : ℕ) (run : Run G P)
      → Refines (has_failovers cfg) run (generate_loop rand cfg left i run)
  unfolding generate_loop
  generate_loop-Refines zero i run = Refines-refl run
  generate_loop-Refines (suc left) i run =
      let stepped = step rand cfg true run in
      let refreshed = refresh cfg i stepped in
      let failed = fail_over cfg i refreshed in
      Refines-trans
        (Refines-trans (step-Refines rand cfg true run) (
          Refines-trans (refresh-Refines cfg i stepped)
            (Refines-trans (fail_over-Refines cfg i refreshed) (advance-Refines failed))))
        (generate_loop-Refines left (i + 1) (advance failed))

  drain_loop-Refines :
      (left : ℕ) (run : Run G P) → Refines (has_failovers cfg) run (drain_loop rand cfg left run)
  unfolding drain_loop
  drain_loop-Refines zero run = Refines-refl run
  drain_loop-Refines (suc left) run = elim (Bool-cases (is_done run)) [
    | inl done ↦ rw (done, drain_loop) (Refines-refl run)
    | inr more ↦
        rw (more, drain_loop)
          (Refines-trans
            (Refines-trans (step-Refines rand cfg false run)
              (advance-Refines (step rand cfg false run)))
            (drain_loop-Refines left (advance (step rand cfg false run))))
  ]

  -- Whatever the generator draws and however many failovers are scheduled, the state at the end of a
  -- run whose client's history stayed below 2^64 events is one that System reaches from the start:
  -- each of its messages in flight was sent, no response in flight is a recovery signal, the
  -- checkpoint was taken, and no server that was replaced had counted a hash mismatch.
  pub last_run-Implements :
      (rng : G)
      → IsSmall (last_run rand cfg rng)
      → (traffic : Traffic) × Implements (has_failovers cfg) (last_run rand cfg rng) traffic
  unfolding last_run
  last_run-Implements rng small =
      let first = first_run cfg rng in
      let generated = generate_loop rand cfg cfg.gen_steps 0 first in
      let (traffic, v) = first_run-Implements cfg rng in
      (Refines-trans (generate_loop-Refines cfg.gen_steps 0 first)
          (drain_loop-Refines (drain_cap cfg) generated)).goes
        small traffic v
