-- ===== src/Tests/Answers.antt =====
-- The theorems on single requests, replays and deliveries, at states of the run with a failover.
use color.Prelude.{
  ◌-◌, ℕ, suc, ◌⊎◌, get_elem?, ◌+◌, ◌≡◌, ◌||◌, refl, false, true, none, some, [], ◌∷◌, length,
  inc64, arith, All, if◌then◌else◌, ltb,
}
use color.Dict.{lookup, contains}
use color.Core.Message.{Request}
use color.Core.History.{event_count}
use color.Core.Client.{build_replay, frozen}
use color.Core.Client.Delivery.{Distinct, delivered_ids}
use color.Core.Server.{needs_recover, make_response, on_request, release_acked}
use color.Core.Server.Resume.{ingest_replay, resumed_server, checkpoint}
use color.Core.Server.Ordering.{InOrder}
use color.Core.Server.Served.{Served}
use color.Core.Server.Gap.{event_count-ingest_replay}
use color.Core.Server.Owed.{on_request-checkpoint}
use color.Core.Server.Retransmission.{lookup-release_acked}
use color.System.{System, Setup, start, Reach, generate, here, next}
use color.System.Steady.{IsSteady, Reach-IsSteady}
use color.System.Recovery.{ingest_replay-build_replay}
use color.System.Outstanding.{frozen-Reach}
use color.System.Progress.{OnlyMessages, IsSettled, Reach-IsSettled}
use color.System.Delivery.{Reach-Distinct}
use color.System.Requests.{on_request-ordered, on_request-buffered}
use color.Tests.Runs.{
  running, numbered, numbering, hello, generated, first, second, opened, opened-Reach, answered,
  answered-Reach, crashed, crashed-Reach, recovered, recovered-Reach,
}

ingest_replay-build_replay_example :
    let s =
      ingest_replay crashed.server
        (build_replay crashed.client (event_count crashed.server.history)) in
    (s.committed_upto + 1 ≡ crashed.client.next_seq)
    × (s.history.cur_hash ≡ crashed.client.history.cur_hash)
    × (event_count s.history ≡ event_count crashed.client.history)
    × All (λ req. needs_recover s req ≡ false) crashed.requests
ingest_replay-build_replay_example = ingest_replay-build_replay numbered crashed-Reach

-- The server that came back with nothing.
Reach-IsSettled_example : (z : System ℕ) × (p : Reach crashed z) × OnlyMessages p × IsSettled z
Reach-IsSettled_example = Reach-IsSettled numbered crashed-Reach

Reach-Distinct_example :
    Distinct (delivered_ids recovered.client)
    × All (λ k. contains k recovered.client.received ≡ true) (delivered_ids recovered.client)
Reach-Distinct_example = Reach-Distinct numbered recovered-Reach

on_request-ordered_example :
    let (s, out) = on_request opened.server first in
    InOrder opened.server.committed_upto out
    × Served opened.requests opened.server.app opened.server.committed_upto opened.server.world
        opened.server.app_calls out s.world s.app_calls
    × (opened.server.committed_upto + length out ≡ s.committed_upto)
    × (lookup (inc64 s.committed_upto) s.pending_reqs ≡ none)
unfolding running
on_request-ordered_example =
    on_request-ordered numbered opened-Reach 0 first refl refl (omega arith)

on_request-buffered_example :
    let (s, out) = on_request answered.server first in
    (out ≡ make_response answered.server 1 (0 ∷ hello) false ∷ [])
    × (s.world ≡ answered.server.world)
    × (s.history ≡ answered.server.history)
    × (s.committed_upto ≡ answered.server.committed_upto)
    × (s.app_calls ≡ answered.server.app_calls)
    × (lookup 1 s.resp_buffer ≡ some (0 ∷ hello))
unfolding running
on_request-buffered_example =
    on_request-buffered numbered answered-Reach 0 first (0 ∷ hello) refl refl

-- The second request was replayed and never answered.
on_request-checkpoint_example :
    let t = resumed_server (checkpoint recovered.server) numbering 0 true true in
    let (payload, world) =
      numbering recovered.server.world 2 second.payload recovered.server.history in
    ((on_request recovered.server second).1 ≡ make_response recovered.server 2 payload false ∷ [])
    × ((on_request recovered.server second).0.world ≡ world)
    × ((on_request t second).1 ≡ make_response t 2 [] true ∷ [])
    × ((on_request t second).0.world ≡ 0)
unfolding running
on_request-checkpoint_example =
    on_request-checkpoint recovered.server second numbering 0 true true refl (omega arith) refl refl

lookup-release_acked_example : lookup 1 (release_acked answered.server second).resp_buffer ≡ (
    if ltb 1 second.ack_base || contains 1 second.ack_new
    then none
    else lookup 1 answered.server.resp_buffer)
lookup-release_acked_example = lookup-release_acked answered.server second 1

frozen-Reach_example :
    (contains 2 answered.client.received ≡ true)
    ⊎ ((i : ℕ) × (r : Request) × (2 ≡ suc i)
        × (frozen answered.client 2 ≡ some r)
        × (get_elem? answered.requests i ≡ some r))
unfolding running
frozen-Reach_example = frozen-Reach numbered answered-Reach 2 (omega arith) (omega arith)

-- The replay of the last event, on the server that came back with nothing.
event_count-ingest_replay_example :
    event_count (ingest_replay crashed.server (build_replay recovered.client 2)).history
      + (2 - event_count crashed.server.history)
    ≡ 2 + length (build_replay recovered.client 2).events
unfolding running
event_count-ingest_replay_example =
    event_count-ingest_replay crashed.server (build_replay recovered.client 2) (omega arith)
      (omega arith)

abbrev calm : Setup ℕ
calm = record numbered { failing = false }

calm-Reach : Reach (start calm) (generated (start calm))
unfolding running
calm-Reach = next here (generate hello (omega arith) (omega arith))

Reach-IsSteady_example : IsSteady (generated (start calm))
Reach-IsSteady_example = Reach-IsSteady calm refl calm-Reach
