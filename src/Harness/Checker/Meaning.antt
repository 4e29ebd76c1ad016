-- ===== src/Harness/Checker/Meaning.antt =====
-- checker.h: what the checker says of a conversation that has come to rest.
use color.Prelude.{
  ℕ, suc, ◌+◌, ◌≤◌, ◌<◌, ◌≡◌, refl, ap, sym, ◌∙◌, inl, inr, Bool, true, false, [], length, arith,
  take, drop, map-eq-nil, length-take_le, u64_mod, Bool-cases, ltb, some,
}
use color.Dict.{lookup, contains}
use color.Core.Message.{Seq, Request}
use color.Core.History.{event_count}
use color.Core.Client.{outstanding}
use color.System.{System, Setup, start, Reach}
use color.System.Safety.{Reach-IsConsistent}
use color.System.Histories.{Reach-IsPrefixOf, converged}
use color.System.Outstanding.{Reach-Keeps}
use color.System.Calls.{called_once-Reach}
use color.System.Steady.{Reach-IsSteady}
use color.Harness.Checker.{check_run, no_failure, dec64}
use color.Harness.Checker.Verdict.{Passes-no_failure}
use color.Harness.Checker.Checks.{Unless}

-- The three maxima that the checker bounds.
pub record IsBounded {W : Type 0} (y : System W) (bound : ℕ) : Type 0 where
  pub buffer : y.server.max_resp_buffer ≤ bound
  pub staging : y.server.max_pending ≤ bound
  pub acks : y.client.max_ack_new ≤ bound

dec64-suc : (n : ℕ) → n + 1 < u64_mod → dec64 (suc n) ≡ n
unfolding dec64
dec64-suc n h = omega arith

module _ {W : Type 0} (u : Setup W) {y : System W} (r : Reach (start u) y)
    (rest : outstanding y.client ≡ []) where
  -- With nothing outstanding, every id issued has been received.
  rest_received : (k : Seq) → 1 ≤ k → k < y.client.next_seq → contains k y.client.received ≡ true
  unfolding outstanding lookup
  rest_received k one low = elim (Reach-Keeps u r k one low) [
    | inl got ↦ got
    | inr (q, held) ↦
        let empty : y.client.inflight ≡ [] = map-eq-nil _ y.client.inflight rest in
        absurd (none_held (ap (lookup k) (sym empty) ∙ held))
  ]
    where
      none_held : {q : Request} → lookup k [] ≡ some q → ⊥
      none_held h = absurd (cc)

  issued : dec64 y.client.next_seq ≡ length y.requests
  issued =
      let v = Reach-IsConsistent u r in
      let short = v.conversation.short in
      ap dec64 v.follows.numbered ∙ dec64-suc (length y.requests) short

  rest-Passes :
      (mismatches bound : ℕ) (had_failover : Bool)
      → mismatches ≡ 0
      → y.server.committed_upto + 1 ≡ y.client.next_seq
      → IsBounded y bound
      → Unless had_failover
          (y.server.history.events ≡ take (length y.server.history.events) y.client.history.events)
      → Unless had_failover (length y.server.app_calls ≡ y.server.committed_upto)
      → check_run y.client y.server mismatches bound had_failover ≡ no_failure
  rest-Passes mismatches bound had_failover quiet all bounded prefix sized =
      let numbered = (Reach-IsConsistent u r).follows.numbered in
      Passes-no_failure y.client y.server mismatches bound had_failover (record {
        prefix = prefix;
        hash = sym (converged u r all).0;
        quiet = quiet;
        sized = sized;
        once = called_once-Reach u r;
        committed = omega (arith, issued);
        answered = λ s one low. rest_received s one (omega (arith, issued));
        buffer = bounded.buffer;
        staging = bounded.staging;
        acks = bounded.acks;
      })

  -- The checker finds no failure in a conversation, whatever failovers it has seen, in which nothing
  -- is outstanding, the server has committed every id issued, no mismatch was counted, and the
  -- three maxima are within the bound.
  pub check_run-Reach :
      (bound : ℕ)
      → y.server.committed_upto + 1 ≡ y.client.next_seq
      → IsBounded y bound
      → check_run y.client y.server 0 bound true ≡ no_failure
  check_run-Reach bound all bounded = rest-Passes 0 bound true refl all bounded tt tt

  module _ (calm : u.failing ≡ false) where
    -- Without failovers, what was answered was committed.
    calm-committed : y.server.committed_upto + 1 ≡ y.client.next_seq
    calm-committed =
        let v = Reach-IsConsistent u r in
        let steady = Reach-IsSteady u calm r in
        let numbered = v.follows.numbered in
        let behind = v.agrees.behind in
        elim (Bool-cases (ltb 0 (length y.requests))) [
          | inl some_sent ↦
              let last : length y.requests ≤ y.server.committed_upto =
                steady.received (length y.requests)
                  (rest_received (length y.requests) (ground (arith, some_sent)) (omega arith)) in
              omega arith
          | inr nothing ↦ let empty : length y.requests ≡ 0 = ground (arith, nothing) in omega arith
        ]

    calm-prefix :
        y.server.history.events ≡ take (length y.server.history.events) y.client.history.events
    calm-prefix =
        let v = Reach-IsPrefixOf u r in
        let n = event_count y.server.history in
        let first : y.server.history.events ≡ take n y.client.history.events =
          v.retained
          ∙ ap (λ b. drop b (take n y.client.history.events))
              (Reach-IsSteady u calm r).server.whole in
        let size : length y.server.history.events ≡ n =
          ap length first ∙ length-take_le n y.client.history.events v.shorter in
        first ∙ ap (λ k. take k y.client.history.events) (sym size)

    -- The checker finds no failure in a conversation without failovers in which nothing is
    -- outstanding, no mismatch was counted, and the three maxima are within the bound; that every
    -- request was committed need not be asked for.
    pub check_run-steady :
        (bound : ℕ) → IsBounded y bound → check_run y.client y.server 0 bound false ≡ no_failure
    check_run-steady bound bounded =
        rest-Passes 0 bound false refl calm-committed bounded calm-prefix
          (Reach-IsSteady u calm r).server.sized
