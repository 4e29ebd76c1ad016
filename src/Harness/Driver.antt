-- ===== src/Harness/Driver.antt =====
-- verification/src/fuzz_main.cpp, run_one: a client and a server joined by two simulated links, driven
-- tick by tick and then drained. What `--verbose` prints is left out.
use color.Prelude.{
  ℕ, zero, suc, ◌+◌, ◌-◌, ◌%◌, Bool, true, false, Option, none, some, List, [], ◌∷◌, ◌++◌, ltb, leb,
  if◌then◌else◌, u64_mod, length,
}
use color.Prelude.Ints.{ℤ, rounds}
use color.Text.{codes, to_string}
use color.Dict.{lookup, insert}
use color.Core.Message.{Seq, Request, Response}
use color.Core.Checkpoint.{Checkpoint}
use color.Core.Client.{
  Client, new_client, generate_request, on_response, build_replay, outstanding, frozen,
}
use color.Core.Server.{App, Server, new_server, on_request}
use color.Core.Server.Resume.{checkpoint, ingest_replay}
use color.Harness.Link.{Random, LinkConfig, SimLink, new_link, send, due}

-- `Config`; `P` stands for `double`.
pub record Config (P : Type 0) : Type 0 where
  pub seeds : ℕ
  pub base_seed : ℕ
  pub gen_steps : ℕ
  pub parallel : ℕ
  pub rate : P
  pub drop : P
  pub dup : P
  pub max_latency : ℤ
  pub rto : ℕ
  pub minutes : P
  pub verbose : Bool
  pub failovers : ℕ
  pub ckpt_interval : ℕ

-- The local variables of `run_one`. The state of the application is the clock that it reads.
pub record Run (G P : Type 0) : Type 0 where
  pub rng : G
  pub now : ℕ
  pub c2s : SimLink P Request
  pub s2c : SimLink P Response
  pub client : Client
  pub server : Server ℕ
  -- the share of `hash_mismatches` that servers replaced since have counted
  pub reported : ℕ
  pub last_ckpt : Checkpoint
  pub failovers_done : ℕ
  pub last_send : List (Seq × ℕ)

-- The lambda `app`.
abbrev pub stamping : App ℕ
stamping now seq payload history =
    (codes "srv-ts=" ++ (to_string now ++ (codes ";seq=" ++ to_string seq)), now)

-- `a - b` on `uint64_t`
sub64 : ℕ → ℕ → ℕ
sub64 a b = (a + u64_mod - b) % u64_mod

abbrev pub link_config : {P : Type 0} → Config P → LinkConfig P
link_config cfg = record {
  p_drop = cfg.drop;
  p_dup = cfg.dup;
  min_latency = 1;
  max_latency = rounds cfg.max_latency;
}

-- What is set up before the first tick; `rng` is the generator seeded with `seed`.
unfoldable pub first_run : {G P : Type 0} → Config P → G → Run G P
first_run cfg rng =
    let server = new_server stamping 0 true true in
    record {
      rng = rng;
      now = 0;
      c2s = new_link (link_config cfg);
      s2c = new_link (link_config cfg);
      client = new_client false true true;
      server = server;
      reported = 0;
      last_ckpt = checkpoint server;
      failovers_done = 0;
      last_send = [];
    }

-- Whether `responses.size() == 1 && responses[0].recover`, and its position.
unfoldable pub signalled : List Response → Option ℕ
signalled [] = none
signalled (resp ∷ []) = if resp.recover then some resp.recover_from else none
signalled (resp ∷ _ ∷ _) = none

module _ {W : Type 0} where
  -- The inner loop of the delivery, with `guard` rounds left.
  unfoldable pub recover_loop :
      ℕ → Client → Request → Server W × List Response → Server W × List Response
  recover_loop zero client req r = r
  recover_loop (suc guard) client req r = elim (signalled r.1) [
    | none ↦ r
    | some from ↦
        recover_loop guard client req
          (on_request (ingest_replay r.0 (build_replay client from)) req)
  ]

  -- One request: the server's answer, with the recovery round trip.
  unfoldable pub handle : Client → Server W → Request → Server W × List Response
  handle client server req = recover_loop 8 client req (on_request server req)

module _ {G P : Type 0} where
  -- Part 4, for the responses that are due.
  unfoldable pub receive_loop : List Response → Run G P → Run G P
  receive_loop [] run = run
  receive_loop (resp ∷ resps) run =
      receive_loop resps (record run { client = (on_response run.client resp).0 })

  unfoldable pub response_part : Run G P → Run G P
  response_part run =
      let (resps, s2c) = due run.now run.s2c in receive_loop resps (record run { s2c = s2c })

module _ {G P : Type 0} (rand : Random G P) where
  -- The lambda `send_request`.
  unfoldable pub send_request : Request → Run G P → Run G P
  send_request r run =
      let (c2s, rng) = send rand run.now r run.c2s run.rng in
      record run { c2s = c2s; rng = rng; last_send = insert r.seq run.now run.last_send }

  -- `send_request(client.frozen(s))`; `at` does not throw, since the ids come from the same map.
  unfoldable pub send_frozen : Seq → Run G P → Run G P
  unfolding send_request
  send_frozen s run = elim (frozen run.client s) [ none ↦ run | some r ↦ send_request r run ]

  -- One round of part 1 of a tick; `rng() & 0xffff` is the draw modulo 2^16.
  unfoldable pub arrive : Run G P → Run G P
  unfolding send_request
  arrive run =
      let (w, rng) = rand.word run.rng in
      let p = codes "cli-ts=" ++ (to_string run.now ++ (codes ";n=" ++ to_string (w % 65536))) in
      let (client, r) = generate_request run.client p in
      send_request r (record run { rng = rng; client = client })

  -- `for (const auto& resp : responses) s2c.send(now, resp)`
  unfoldable pub respond_loop : List Response → Run G P → Run G P
  respond_loop [] run = run
  respond_loop (resp ∷ resps) run =
      let (s2c, rng) = send rand run.now resp run.s2c run.rng in
      respond_loop resps (record run { s2c = s2c; rng = rng })

  -- Part 3, for the requests that are due.
  unfoldable pub deliver_loop : List Request → Run G P → Run G P
  deliver_loop [] run = run
  deliver_loop (req ∷ reqs) run =
      let (server, responses) = handle run.client run.server req in
      deliver_loop reqs (respond_loop responses (record run { server = server }))

  unfoldable pub request_part : Run G P → Run G P
  request_part run =
      let (reqs, c2s) = due run.now run.c2s in deliver_loop reqs (record run { c2s = c2s })

module _ {G P : Type 0} (rand : Random G P) (cfg : Config P) where
  -- `for (int j = 0; j < want && out < cfg.parallel; ++j)`, with `left` rounds wanted.
  unfoldable pub arrive_loop : ℕ → ℕ → Run G P → Run G P
  arrive_loop zero out run = run
  arrive_loop (suc left) out run = elim (ltb out cfg.parallel) [
    | true ↦ arrive_loop left (out + 1) (arrive rand run)
    | false ↦ run
  ]

  -- One round of part 2.
  unfoldable pub resend : Seq → Run G P → Run G P
  unfolding sub64
  resend s run =
      let last : ℕ = elim (lookup s run.last_send) [ none ↦ 0 | some tick ↦ tick ] in
      if leb cfg.rto (sub64 run.now last) then send_frozen rand s run else run

  unfoldable pub resend_loop : List Seq → Run G P → Run G P
  resend_loop [] run = run
  resend_loop (s ∷ ss) run = resend_loop ss (resend s run)

  unfoldable pub generate_part : Run G P → Run G P
  generate_part run =
      let (want, rng) = rand.arrivals cfg.rate run.rng in
      arrive_loop want (length (outstanding run.client)) (record run { rng = rng })

  -- The lambda `step`.
  unfoldable pub step : Bool → Run G P → Run G P
  step generating run =
      let run₁ = if generating then generate_part run else run in
      response_part (request_part rand (resend_loop (outstanding run₁.client) run₁))
