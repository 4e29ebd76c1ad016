-- ===== src/Tests/Fuzz.antt =====
-- The harness on a toy source of draws: the links neither drop nor duplicate, one request arrives at
-- each tick, and there is one failover.
use color.Prelude.Ints.{pos, rounds, to_size}
use color.Prelude.{
  true, false, ℕ, ◌<◌, ℕ, ◌+◌, ◌≡◌, refl, Bool, true, false, [], arith, get_elem?, some, All, ◌⊎◌,
  ◌↔◌, inc64, if◌then◌else◌, ltb,
}
use color.Core.History.{event_eq}
use color.Core.Client.{outstanding, frozen}
use color.Harness.Link.{
  Random, SimLink, emplace, pop, inc64_by, new_link, due, is_empty, extra, schedule, duplicate,
  offer, send,
}
use color.Harness.Checker.{
  no_failure, require, compare_events, check_prefix, check_calls, check_answered, check_run, dec64,
  check_safety, check_once, check_liveness, check_bounds,
}
use color.Harness.Driver.{
  Config, link_config, first_run, signalled, recover_loop, handle, send_request, arrive,
  arrive_loop, send_frozen, resend, resend_loop, respond_loop, deliver_loop, receive_loop,
  generate_part, request_part, response_part, step,
}
use color.Harness.Phases.{
  advance, is_done, refresh, fail_over, generate_loop, drain_loop, drain_cap, last_run, bound,
  stats_of, run_one,
}
use color.Harness.Refinement.{Traffic, Implements, IsSmall}
use color.Harness.Refinement.Ticks.{has_failovers, last_run-Implements}
use color.Core.Server.{on_request, needs_recover}
use color.Core.Server.Plain.{IsPlain}
use color.Harness.Link.Counters.{IsBalanced, Uses, fresh, sends, Uses-IsBalanced}
use color.Harness.Link.Due.{Holds, first_tick, last_tick, ripe, unripe, due-partition, send-window}
use color.Harness.Checker.Verdict.{Passes, ok-Passes}
use color.Harness.Handshake.{ready, handle-Reach}
use color.Harness.Refinement.Verdicts.{StaysBounded, ended, run_one-steady, run_one-recovered}
use color.Tests.Runs.{running, numbered, crashed, crashed-Reach, second}

abbrev pub toy : Random ℕ Bool
toy = record {
  seeded = λ seed. seed;
  chance = λ p g. (p, g + 1);
  word = λ g. (g, g + 1);
  arrivals = λ p g. (1, g);
}

abbrev pub two_ticks : Config Bool
two_ticks = record {
  seeds = 1;
  base_seed = 1;
  gen_steps = 3;
  parallel = 2;
  rate = true;
  drop = false;
  dup = false;
  max_latency = pos 2;
  rto = 6;
  minutes = false;
  verbose = false;
  failovers = 1;
  ckpt_interval = 2;
}

-- Everything that a run computes with.
unfoldable pub fuzzing : Unit {0}
unfolding running event_eq emplace pop inc64_by new_link due is_empty extra schedule duplicate offer
    send require compare_events check_prefix check_calls check_answered check_run dec64 first_run
    signalled recover_loop handle send_request arrive arrive_loop send_frozen resend resend_loop
    respond_loop deliver_loop receive_loop generate_part request_part response_part step advance
    rounds to_size is_done refresh fail_over generate_loop drain_loop drain_cap last_run bound
    stats_of run_one outstanding frozen check_safety check_once check_liveness check_bounds
fuzzing = tt

toy_issued : (run_one toy two_ticks 1).issued ≡ 2
unfolding fuzzing
toy_issued = refl

toy_passes : (run_one toy two_ticks 1).result ≡ no_failure
unfolding fuzzing
toy_passes = refl

toy_steps : (run_one toy two_ticks 1).steps ≡ 6
unfolding fuzzing
toy_steps = refl

toy-IsSmall : IsSmall (last_run toy two_ticks 1)
unfolding fuzzing
toy-IsSmall = omega arith

last_run-Implements_example :
    (traffic : Traffic) × Implements (has_failovers two_ticks) (last_run toy two_ticks 1) traffic
last_run-Implements_example = last_run-Implements toy two_ticks 1 toy-IsSmall

toy_link : SimLink Bool ℕ
toy_link = (send toy 5 40 (send toy 4 41 (new_link (link_config two_ticks)) 0).0 0).0

toy_link-Uses : Uses toy (link_config two_ticks) toy_link
unfolding toy_link
toy_link-Uses = sends 5 40 0 (sends 4 41 0 fresh)

Uses-IsBalanced_example : IsBalanced toy_link
Uses-IsBalanced_example = Uses-IsBalanced toy (link_config two_ticks) toy_link-Uses

due-partition_example :
    ((due 5 toy_link).0 ≡ ripe 5 toy_link.queue)
    × ((due 5 toy_link).1.queue ≡ unripe 5 toy_link.queue)
due-partition_example = due-partition toy (link_config two_ticks) toy_link-Uses 5

send-window_example :
    let link' = (send toy 6 42 toy_link 0).0 in
    (((toy.chance toy_link.cfg.p_drop 0).0 ≡ true)
      × (link'.queue ≡ toy_link.queue)
      × (link'.dropped ≡ inc64 toy_link.dropped))
    ⊎ (((toy.chance toy_link.cfg.p_drop 0).0 ≡ false)
        × (link'.dropped ≡ toy_link.dropped)
        × Holds 42 (due (last_tick 6 toy_link.cfg) link').0
        × ((t : ℕ) → t < first_tick 6 toy_link.cfg → (due t link').0 ≡ (due t toy_link).0))
unfolding toy_link fuzzing
send-window_example =
    send-window toy 6 42 (link_config two_ticks) toy_link 0 toy_link-Uses (omega arith)

second_sent : get_elem? crashed.requests 1 ≡ some second
unfolding running
second_sent = refl

handle-Reach_example :
    let s = ready crashed.client crashed.server second in
    (handle crashed.client crashed.server second ≡ on_request s second)
    × (needs_recover s second ≡ false)
    × All IsPlain (handle crashed.client crashed.server second).1
handle-Reach_example = handle-Reach numbered crashed-Reach 1 second second_sent

ok-Passes_example :
    let run = last_run toy two_ticks 1 in
    ((check_run run.client run.server 0 32 true).ok ≡ true) ↔ Passes run.client run.server 0 32 true
ok-Passes_example = let run = last_run toy two_ticks 1 in ok-Passes run.client run.server 0 32 true

abbrev no_failover : Config Bool
no_failover = record two_ticks { failovers = 0 }

calm_passes : (run_one toy no_failover 1).result ≡ no_failure
unfolding fuzzing
calm_passes = refl

calm-IsSmall : IsSmall (ended toy no_failover 1)
unfolding fuzzing
calm-IsSmall = omega arith

calm_done : is_done (ended toy no_failover 1) ≡ true
unfolding fuzzing
calm_done = refl

calm_bounded : StaysBounded no_failover (ended toy no_failover 1)
unfolding fuzzing
calm_bounded = record { buffer = omega arith; staging = omega arith; acks = omega arith }

run_one-steady_example : (run_one toy no_failover 1).result ≡ no_failure
run_one-steady_example = run_one-steady toy no_failover 1 calm-IsSmall calm_done calm_bounded refl

toy_done : is_done (ended toy two_ticks 1) ≡ true
unfolding fuzzing
toy_done = refl

toy_bounded : StaysBounded two_ticks (ended toy two_ticks 1)
unfolding fuzzing
toy_bounded = record { buffer = omega arith; staging = omega arith; acks = omega arith }

toy_committed :
    (ended toy two_ticks 1).server.committed_upto + 1 ≡ (ended toy two_ticks 1).client.next_seq
unfolding fuzzing
toy_committed = refl

run_one-recovered_example : (run_one toy two_ticks 1).result ≡ no_failure
run_one-recovered_example =
    run_one-recovered toy two_ticks 1 toy-IsSmall toy_done toy_bounded refl toy_committed

-- Requests arrive only at first, and the failover comes when all of them are answered.
abbrev early : Random ℕ Bool
early = record toy { arrivals = λ p g. (if ltb g 5 then 1 else 0, g) }

abbrev late_failover : Config Bool
late_failover = record two_ticks { gen_steps = 16; ckpt_interval = 40 }

late_failover_fails : (run_one early late_failover 1).result.ok ≡ false
unfolding fuzzing
late_failover_fails = refl

late_failover_answered : (ended early late_failover 1).client.inflight ≡ []
unfolding fuzzing
late_failover_answered = refl
