-- ===== src/Harness/Checker.antt =====
-- verification/src/checker.h: the checks that the harness makes after a run.
use color.Prelude.{
  ℕ, zero, suc, ◌+◌, ◌-◌, Bool, true, false, not, ◌&&◌, List, [], ◌∷◌, ◌++◌, leb, ltb, ◌==◌,
  if◌then◌else◌, length, u64_mod, ◌%◌,
}
use color.Text.{Bytes, codes, to_string}
use color.Dict.{contains}
use color.Core.Message.{Seq}
use color.Core.History.{Event, History, event_eq, event_str}
use color.Core.Client.{Client}
use color.Core.Server.{Server}
mod Checks
pub mod Verdict
pub mod Meaning

pub record CheckResult : Type 0 where
  pub ok : Bool
  pub failures : List Bytes

-- `CheckResult r;`
abbrev pub no_failure : CheckResult
no_failure = record { ok = true; failures = [] }

-- `CheckResult::require`
unfoldable pub require : Bool → Bytes → CheckResult → CheckResult
require cond msg r =
    if not cond then record { ok = false; failures = r.failures ++ msg ∷ [] } else r

longer_msg : ℕ → ℕ → Bytes
longer_msg server client =
    codes "server history longer than client history ("
    ++ to_string server
    ++ codes " > "
    ++ to_string client
    ++ codes ")"

divergence_msg : ℕ → Event → Event → Bytes
divergence_msg i server client =
    codes "history divergence at event "
    ++ to_string i
    ++ codes ": server="
    ++ event_str server
    ++ codes " client="
    ++ event_str client

-- The loop over the common part, at index `i`; it breaks at the first difference.
unfoldable pub compare_events : ℕ → List Event → List Event → CheckResult → CheckResult
unfolding divergence_msg
compare_events i [] ch r = r
compare_events i (s ∷ sh) [] r = r
compare_events i (s ∷ sh) (c ∷ ch) r =
    let rest = compare_events (i + 1) sh ch r in
    if not (event_eq s c) then require false (divergence_msg i s c) r else rest

-- SAFETY without a failover.
unfoldable pub check_prefix : List Event → List Event → CheckResult → CheckResult
unfolding longer_msg compare_events
check_prefix sh ch r =
    compare_events 0 sh ch
      (require (leb (length sh) (length ch)) (longer_msg (length sh) (length ch)) r)

-- `n - 1` on `uint64_t`
unfoldable pub dec64 : ℕ → ℕ
dec64 n = (n + u64_mod - 1) % u64_mod

count_msg : Bytes → ℕ → Bytes → ℕ → Bytes
count_msg what n relation bound = what ++ to_string n ++ relation ++ to_string bound

-- EXACTLY-ONCE, for each entry of `app_calls`.
unfoldable pub check_calls : List (Seq × ℕ) → CheckResult → CheckResult
check_calls [] r = r
check_calls ((seq, n) ∷ calls) r = check_calls calls (
    require (n == 1)
      (codes "seq "
        ++ to_string seq
        ++ codes " processed "
        ++ to_string n
        ++ codes " times (want 1)")
      r)

-- LIVENESS: `for (Seq s = 1; s <= issued; ++s)`, with `left` rounds left.
unfoldable pub check_answered : ℕ → Seq → List Seq → CheckResult → CheckResult
check_answered zero s received r = r
check_answered (suc left) s received r =
    check_answered left (s + 1) received
      (require (contains s received) (codes "request " ++ to_string s ++ codes " never answered") r)

module _ {W : Type 0} (client : Client) (server : Server W) where
  -- SAFETY.
  unfoldable pub check_safety : Bool → CheckResult → CheckResult
  check_safety had_failover r =
      let r₁ =
        if not had_failover
        then check_prefix server.history.events client.history.events r
        else r in
      require (client.history.cur_hash == server.history.cur_hash)
        (codes "final history hash mismatch (client vs server)") r₁

  -- EXACTLY-ONCE.
  unfoldable pub check_once : Bool → CheckResult → CheckResult
  unfolding count_msg
  check_once had_failover r =
      let r₁ =
        if not had_failover
        then require (length server.app_calls == server.committed_upto)
            (count_msg (codes "app_calls size ") (length server.app_calls)
              (codes " != committed_upto ") server.committed_upto)
            r
        else r in
      check_calls server.app_calls r₁

  -- LIVENESS.
  unfoldable pub check_liveness : CheckResult → CheckResult
  unfolding count_msg
  check_liveness r =
      let issued = dec64 client.next_seq in
      check_answered issued 1 client.received (
        require (server.committed_upto == issued)
          (count_msg (codes "committed_upto ") server.committed_upto (codes " != issued ") issued)
          r)

  -- BOUNDED.
  unfoldable pub check_bounds : ℕ → CheckResult → CheckResult
  unfolding count_msg
  check_bounds bound r =
      require (leb client.max_ack_new bound)
        (count_msg (codes "ack-new max ") client.max_ack_new (codes " exceeds bound ") bound)
        (require (leb server.max_pending bound)
          (count_msg (codes "pending staging max ") server.max_pending (codes " exceeds bound ")
            bound)
          (require (leb server.max_resp_buffer bound)
            (count_msg (codes "resp buffer max ") server.max_resp_buffer (codes " exceeds bound ")
              bound)
            r))

  -- `check_run`
  unfoldable pub check_run : ℕ → ℕ → Bool → CheckResult
  check_run hash_mismatches bound had_failover = check_bounds bound (
      check_liveness (
        check_once had_failover (
          require (hash_mismatches == 0)
            (codes "hash mismatches detected: " ++ to_string hash_mismatches)
            (check_safety had_failover no_failure))))
