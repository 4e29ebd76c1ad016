-- ===== src/Harness/Phases.antt =====
-- verification/src/fuzz_main.cpp, run_one: the generation phase with its checkpoints and failovers,
-- the drain phase, and the statistics.
use color.Prelude.{
  u64_mod, ◌%◌, ℕ, zero, suc, ◌+◌, ◌*◌, ◌/◌, ◌%◌, Bool, true, false, not, ◌&&◌, [], ◌∷◌, ltb, ◌==◌,
  if◌then◌else◌, inc64, u64_mod, length,
}
use color.Prelude.Ints.{to_size}
use color.Core.Server.Resume.{resumed_server, checkpoint}
use color.Core.Client.{outstanding}
use color.Harness.Link.{Random, is_empty}
use color.Harness.Checker.{CheckResult, check_run, dec64}
use color.Harness.Driver.{Config, Run, stamping, first_run, step}

-- The lambda `failover_step`.
unfoldable pub failover_step : {P : Type 0} → Config P → ℕ → ℕ
failover_step cfg k = cfg.gen_steps * inc64 k % u64_mod / inc64 cfg.failovers

unfoldable pub is_checkpoint_step : {P : Type 0} → Config P → ℕ → Bool
is_checkpoint_step cfg i = not (cfg.ckpt_interval == 0) && i % cfg.ckpt_interval == 0

unfoldable pub drain_cap : {P : Type 0} → Config P → ℕ
drain_cap cfg = (cfg.gen_steps * 50 + 100000) % u64_mod

unfoldable pub bound : {P : Type 0} → Config P → ℕ
bound cfg = (4 * (cfg.parallel + to_size cfg.max_latency) + 16) % u64_mod

module _ {G P : Type 0} where
  -- `++now`, which the application reads.
  unfoldable pub advance : Run G P → Run G P
  advance run = record run {
    now = inc64 run.now;
    server = record run.server { world = inc64 run.now };
  }

  unfoldable pub is_done : Run G P → Bool
  is_done run =
      elim (outstanding run.client) [ [] ↦ true | _ ∷ _ ↦ false ]
      && (is_empty run.c2s && is_empty run.s2c)

  -- `last_ckpt = server->checkpoint()`
  unfoldable pub take_checkpoint : Run G P → Run G P
  take_checkpoint run = record run { last_ckpt = checkpoint run.server }

  -- A failover: a new server, made from the last checkpoint.
  unfoldable pub replace_server : Run G P → Run G P
  replace_server run = record run {
    server = resumed_server run.last_ckpt stamping run.now true true;
    reported = run.reported + length run.server.mismatches;
    failovers_done = inc64 run.failovers_done;
  }

module _ {G P : Type 0} (cfg : Config P) where
  unfoldable pub is_failover_step : ℕ → Run G P → Bool
  unfolding failover_step
  is_failover_step i run =
      ltb run.failovers_done cfg.failovers && i == failover_step cfg run.failovers_done

  -- What the generation phase does between a tick and the next.
  unfoldable pub refresh : ℕ → Run G P → Run G P
  unfolding take_checkpoint is_checkpoint_step
  refresh i run = if is_checkpoint_step cfg i then take_checkpoint run else run

  unfoldable pub fail_over : ℕ → Run G P → Run G P
  unfolding replace_server is_failover_step
  fail_over i run = if is_failover_step i run then replace_server run else run

module _ {G P : Type 0} (rand : Random G P) (cfg : Config P) where
  -- The generation phase, with `left` rounds to go.
  unfoldable pub generate_loop : ℕ → ℕ → Run G P → Run G P
  generate_loop zero i run = run
  generate_loop (suc left) i run =
      generate_loop left (i + 1)
        (advance (fail_over cfg i (refresh cfg i (step rand cfg true run))))

  -- The drain phase, with `left` rounds below its cap.
  unfoldable pub drain_loop : ℕ → Run G P → Run G P
  drain_loop zero run = run
  drain_loop (suc left) run = elim (is_done run) [
    | true ↦ run
    | false ↦ drain_loop left (advance (step rand cfg false run))
  ]

  -- The state at the end of the run.
  unfoldable pub last_run : G → Run G P
  last_run rng = drain_loop (drain_cap cfg) (generate_loop cfg.gen_steps 0 (first_run cfg rng))

unfoldable pub hash_mismatches : {G P : Type 0} → Run G P → ℕ
hash_mismatches run = run.reported + length run.server.mismatches + length run.client.mismatches

-- `RunStats`
pub record RunStats : Type 0 where
  pub result : CheckResult
  pub steps : ℕ
  pub issued : ℕ
  pub req_sent : ℕ
  pub req_dropped : ℕ
  pub req_dup : ℕ
  pub rsp_sent : ℕ
  pub rsp_dropped : ℕ
  pub rsp_dup : ℕ
  pub max_resp_buffer : ℕ
  pub max_pending : ℕ
  pub max_ack_new : ℕ

-- The verdict on the state at the end of a run, and the statistics.
unfoldable pub stats_of : {G P : Type 0} → Config P → Run G P → RunStats
unfolding hash_mismatches
stats_of cfg run = record {
  result = check_run run.client run.server (hash_mismatches run) (bound cfg) (ltb 0 cfg.failovers);
  steps = run.now;
  issued = dec64 run.client.next_seq;
  req_sent = run.c2s.sent;
  req_dropped = run.c2s.dropped;
  req_dup = run.c2s.duplicated;
  rsp_sent = run.s2c.sent;
  rsp_dropped = run.s2c.dropped;
  rsp_dup = run.s2c.duplicated;
  max_resp_buffer = run.server.max_resp_buffer;
  max_pending = run.server.max_pending;
  max_ack_new = run.client.max_ack_new;
}

-- `run_one`
unfoldable pub run_one : {G P : Type 0} → Random G P → Config P → ℕ → RunStats
run_one rand cfg seed = stats_of cfg (last_run rand cfg (rand.seeded seed))
