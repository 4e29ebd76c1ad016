-- ===== src/Harness/Refinement.antt =====
-- fuzz_main.cpp, run_one, as an implementation of System: what the driver's state stands for.
use color.Prelude.{ℕ, ◌+◌, ◌<◌, ◌≡◌, Bool, true, false, if◌then◌else◌, List, length, All, u64_mod}
use color.Core.Message.{Request, Response}
use color.Core.Checkpoint.{Checkpoint, Replay}
use color.Core.Server.Plain.{IsPlain}
use color.System.{System, Setup, start, Reach}
use color.Harness.Driver.{Run, stamping}
use color.Harness.Handled.{SentIn}
pub mod Sends
pub mod Serves
pub mod Ticks
pub mod Verdicts

-- The two sides as `run_one` constructs them, with failovers or without.
abbrev pub harness : Bool → Setup ℕ
harness failing = record {
  app = stamping;
  world = 0;
  server_mismatch = true;
  server_hash = true;
  client_deliver = false;
  client_mismatch = true;
  client_hash = true;
  failing = failing;
}

-- What was ever put on the network.
pub record Traffic : Type 0 where
  pub requests : List Request
  pub responses : List Response
  pub checkpoints : List Checkpoint
  pub replays : List Replay

-- A response on its way: it was sent, and it is not a recovery signal.
abbrev pub Flying : List Response → Response → Type 0
Flying responses resp = SentIn responses resp × IsPlain resp

abbrev pub system_of : {G P : Type 0} → Bool → Run G P → Traffic → System ℕ
system_of failing run traffic = record {
  client = run.client;
  server = run.server;
  requests = traffic.requests;
  responses = traffic.responses;
  checkpoints = traffic.checkpoints;
  replays = traffic.replays;
  failing = failing;
}

-- The state of a run stands for one that System reaches: what is queued was sent, and the checkpoint
-- was taken.
pub record Implements {G P : Type 0} (failing : Bool) (run : Run G P) (traffic : Traffic)
    : Type 0 where
  pub reach : Reach (start (harness failing)) (system_of failing run traffic)
  pub flying : All (λ e. SentIn traffic.requests e.1) run.c2s.queue
  pub returning : All (λ e. Flying traffic.responses e.1) run.s2c.queue
  pub saved : SentIn traffic.checkpoints run.last_ckpt
  pub silent : run.reported ≡ 0

-- The client's history, and with it every id, stays below 2^64.
abbrev pub IsSmall : {G P : Type 0} → Run G P → Type 0
IsSmall run = length run.client.history.events + 2 < u64_mod

-- A part of the driver that starts where System can be leads to where System can be.
pub record Refines {G P : Type 0} (failing : Bool) (run run' : Run G P) : Type 0 where
  pub small : IsSmall run' → IsSmall run
  pub goes :
      IsSmall run'
      → (traffic : Traffic) → Implements failing run traffic
      → (traffic' : Traffic) × Implements failing run' traffic'

module _ {G P : Type 0} {failing : Bool} where
  pub Refines-refl : (run : Run G P) → Refines failing run run
  Refines-refl run = record { small = λ s. s; goes = λ s t v. (t, v) }

  pub Refines-trans :
      {a b c : Run G P} → Refines failing a b → Refines failing b c → Refines failing a c
  Refines-trans ab bc = record {
    small = λ s. ab.small (bc.small s);
    goes = λ s t v. let (t', v') = ab.goes (bc.small s) t v in bc.goes s t' v';
  }

  pub Refines-if :
      {a b c : Run G P} (test : Bool)
      → Refines failing a b
      → Refines failing a c
      → Refines failing a (if test then b else c)
  Refines-if true ab ac = ab
  Refines-if false ab ac = ac
