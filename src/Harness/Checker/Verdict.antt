-- ===== src/Harness/Checker/Verdict.antt =====
-- checker.h: how the verdict follows from the single checks.
use color.Prelude.{ℕ, ◌+◌, ◌≤◌, ◌<◌, ◌≡◌, ap, ◌↔◌, Bool, true, arith, length, take, All}
use color.Dict.{contains}
use color.Core.Message.{Seq}
use color.Core.Client.{Client}
use color.Core.Server.{Server}
use color.Harness.Checker.{
  CheckResult, no_failure, dec64, check_safety, check_once, check_liveness, check_bounds, check_run,
}
use color.Harness.Checker.Checks.{
  Unless, Checks, both, eq-Checks, le-Checks, unless-Checks, calls-Checks, answered-Checks,
  prefix-Checks,
}

-- What the checker asks of a run.
pub record Passes {W : Type 0} (client : Client) (server : Server W) (mismatches bound : ℕ)
    (had_failover : Bool) : Type 0 where
  pub prefix :
      Unless had_failover
        (server.history.events ≡ take (length server.history.events) client.history.events)
  pub hash : client.history.cur_hash ≡ server.history.cur_hash
  pub quiet : mismatches ≡ 0
  pub sized : Unless had_failover (length server.app_calls ≡ server.committed_upto)
  pub once : All (λ call. call.1 ≡ 1) server.app_calls
  pub committed : server.committed_upto ≡ dec64 client.next_seq
  pub answered : (s : Seq) → 1 ≤ s → s ≤ dec64 client.next_seq → contains s client.received ≡ true
  pub buffer : server.max_resp_buffer ≤ bound
  pub staging : server.max_pending ≤ bound
  pub acks : client.max_ack_new ≤ bound

module _ {W : Type 0} (client : Client) (server : Server W) (mismatches bound : ℕ) where
  check_safety-Checks :
      (had_failover : Bool)
      → Checks (check_safety client server had_failover) (
          Unless had_failover
            (server.history.events ≡ take (length server.history.events) client.history.events)
          × (client.history.cur_hash ≡ server.history.cur_hash))
  unfolding check_safety
  check_safety-Checks had_failover =
      both
        (unless-Checks had_failover _ (prefix-Checks server.history.events client.history.events))
        (eq-Checks client.history.cur_hash server.history.cur_hash _)

  check_once-Checks :
      (had_failover : Bool)
      → Checks (check_once client server had_failover) (
          Unless had_failover (length server.app_calls ≡ server.committed_upto)
          × All (λ call. call.1 ≡ 1) server.app_calls)
  unfolding check_once
  check_once-Checks had_failover =
      both
        (unless-Checks had_failover _ (eq-Checks (length server.app_calls) server.committed_upto _))
        (calls-Checks server.app_calls)

  check_liveness-Checks : Checks (check_liveness client server) (
      (server.committed_upto ≡ dec64 client.next_seq)
      × ((s : Seq) → 1 ≤ s → s < 1 + dec64 client.next_seq → contains s client.received ≡ true))
  unfolding check_liveness
  check_liveness-Checks =
      both (eq-Checks server.committed_upto (dec64 client.next_seq) _)
        (answered-Checks (dec64 client.next_seq) 1 client.received)

  check_bounds-Checks : Checks (check_bounds client server bound) (
      ((server.max_resp_buffer ≤ bound) × (server.max_pending ≤ bound))
      × (client.max_ack_new ≤ bound))
  unfolding check_bounds
  check_bounds-Checks =
      both (both (le-Checks server.max_resp_buffer bound _) (le-Checks server.max_pending bound _))
        (le-Checks client.max_ack_new bound _)

  check_run-Checks :
      (had_failover : Bool)
      → ((check_run client server mismatches bound had_failover).ok ≡ true
          → Passes client server mismatches bound had_failover)
        × (Passes client server mismatches bound had_failover
            → check_run client server mismatches bound had_failover ≡ no_failure)
  unfolding check_run
  check_run-Checks had_failover =
      let v =
        both
          (both
            (both (both (check_safety-Checks had_failover) (eq-Checks mismatches 0 _))
              (check_once-Checks had_failover))
            check_liveness-Checks)
          check_bounds-Checks in
      (
        λ ok.
            let (
              ((((prefix, hash), quiet), (sized, once)), (committed, answered)),
              ((buffer, staging), acks),
            ) =
              (v.sound no_failure ok).1 in
            record {
              prefix = prefix;
              hash = hash;
              quiet = quiet;
              sized = sized;
              once = once;
              committed = committed;
              answered = λ s low high. answered s low (omega arith);
              buffer = buffer;
              staging = staging;
              acks = acks;
            },
        λ p. v.silent no_failure (
          (
            (((p.prefix, p.hash), p.quiet), (p.sized, p.once)),
            (p.committed, λ s low high. p.answered s low (omega arith)),
          ),
          ((p.buffer, p.staging), p.acks),
        ),
      )

  -- A run that meets what the checker asks has no failure to report.
  pub Passes-no_failure :
      (had_failover : Bool)
      → Passes client server mismatches bound had_failover
      → check_run client server mismatches bound had_failover ≡ no_failure
  Passes-no_failure had_failover p = (check_run-Checks had_failover).1 p

  -- The verdict is `ok` exactly when: without a failover, the server's events are the first of the
  -- client's and there are as many entries of `app_calls` as committed ids; the two hashes are equal;
  -- no mismatch was counted; each entry of `app_calls` is 1; the server has committed the last id
  -- issued and the client has received every one; and the three maxima are within the bound.
  pub ok-Passes :
      (had_failover : Bool)
      → ((check_run client server mismatches bound had_failover).ok ≡ true)
        ↔ Passes client server mismatches bound had_failover
  ok-Passes had_failover = (
    (check_run-Checks had_failover).0,
    λ p. ap (λ (r : CheckResult). r.ok) (Passes-no_failure had_failover p),
  )
