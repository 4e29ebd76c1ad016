-- ===== src/Harness/Refinement/Verdicts.antt =====
-- fuzz_main.cpp, run_one: which runs pass.
use color.Prelude.{ℕ, ◌+◌, ◌≤◌, ◌≡◌, ap, ◌∙◌, Bool, true, false, [], length, arith}
use color.Core.Client.{outstanding}
use color.Harness.Link.{Random}
use color.Harness.Checker.{check_run, no_failure}
use color.Harness.Checker.Meaning.{check_run-Reach, check_run-steady}
use color.System.Histories.{mismatches-Reach}
use color.Harness.Driver.{Config, Run}
use color.Harness.Phases.{is_done, last_run, bound, hash_mismatches, stats_of, run_one}
use color.Harness.Refinement.{harness, Traffic, Implements, IsSmall}
use color.Harness.Refinement.Ticks.{has_failovers, last_run-Implements}

module _ {G P : Type 0} where
  is_done-outstanding : (run : Run G P) → is_done run ≡ true → outstanding run.client ≡ []
  unfolding is_done
  is_done-outstanding run done = ground arith

  -- The three maxima of a run within the driver's bound.
  pub record StaysBounded (cfg : Config P) (run : Run G P) : Type 0 where
    pub buffer : run.server.max_resp_buffer ≤ bound cfg
    pub staging : run.server.max_pending ≤ bound cfg
    pub acks : run.client.max_ack_new ≤ bound cfg

  hash_mismatches-Implements :
      {failing : Bool} (run : Run G P) (traffic : Traffic)
      → Implements failing run traffic
      → hash_mismatches run ≡ 0
  unfolding hash_mismatches
  hash_mismatches-Implements {failing} run traffic v =
      let (client_quiet, server_quiet) = mismatches-Reach (harness failing) v.reach in
      omega (arith, v.silent, ap length client_quiet, ap length server_quiet)

  verdict :
      (cfg : Config P) (run : Run G P) (failing : Bool)
      → has_failovers cfg ≡ failing
      → hash_mismatches run ≡ 0
      → check_run run.client run.server 0 (bound cfg) failing ≡ no_failure
      → (stats_of cfg run).result ≡ no_failure
  unfolding stats_of
  verdict cfg run failing same quiet passed =
      ap (λ n. check_run run.client run.server n (bound cfg) (has_failovers cfg)) quiet
      ∙ ap (λ b. check_run run.client run.server 0 (bound cfg) b) same
      ∙ passed

-- The state at the end of the run with this seed.
abbrev pub ended : {G P : Type 0} → Random G P → Config P → ℕ → Run G P
ended rand cfg seed = last_run rand cfg (rand.seeded seed)

module _ {G P : Type 0} (rand : Random G P) (cfg : Config P) (seed : ℕ)
    (small : IsSmall (ended rand cfg seed)) (done : is_done (ended rand cfg seed) ≡ true)
    (bounded : StaysBounded cfg (ended rand cfg seed)) where
  -- A run without failovers passes, whatever is drawn, if its drain came to an end, its client's
  -- history stayed below 2^64 events, and its three maxima are within the driver's bound.
  pub run_one-steady : has_failovers cfg ≡ false → (run_one rand cfg seed).result ≡ no_failure
  unfolding run_one
  run_one-steady calm =
      let last = ended rand cfg seed in
      let (traffic, v) = last_run-Implements rand cfg (rand.seeded seed) small in
      verdict cfg last false calm (hash_mismatches-Implements last traffic v) (
        check_run-steady (harness (has_failovers cfg)) v.reach (is_done-outstanding last done) calm
          (bound cfg)
          (record { buffer = bounded.buffer; staging = bounded.staging; acks = bounded.acks }))

  -- A run with failovers passes under the same conditions if, at its end, the server has committed
  -- the last id issued.
  pub run_one-recovered :
      has_failovers cfg ≡ true
      → (ended rand cfg seed).server.committed_upto + 1 ≡ (ended rand cfg seed).client.next_seq
      → (run_one rand cfg seed).result ≡ no_failure
  unfolding run_one
  run_one-recovered fails all =
      let last = ended rand cfg seed in
      let (traffic, v) = last_run-Implements rand cfg (rand.seeded seed) small in
      verdict cfg last true fails (hash_mismatches-Implements last traffic v) (
        check_run-Reach (harness (has_failovers cfg)) v.reach (is_done-outstanding last done)
          (bound cfg) all
          (record { buffer = bounded.buffer; staging = bounded.staging; acks = bounded.acks }))
