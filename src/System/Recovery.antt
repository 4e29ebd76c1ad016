-- ===== src/System/Recovery.antt =====
-- System: the replay that a server asks for, and what it ingests of it.
use color.Prelude.{◌+◌, ◌≡◌, false, length, arith, get_elem?-lt, All, All-get_elem?_lem}
use color.Core.History.{event_count}
use color.Core.Client.{build_replay}
use color.Core.Client.Invariant.{build_replay-IsReplayUpto}
use color.Core.Server.{needs_recover}
use color.Core.Server.Resume.{ingest_replay}
use color.Core.Server.Retransmission.{needs_recover-IsConversation}
use color.Core.Server.Recovery.{ingest_replay-Agrees}
use color.System.{System, Setup, start, Reach}
use color.System.Safety.{Reach-IsConsistent}
use color.System.Histories.{Agrees-Follows}

module _ {W : Type 0} (u : Setup W) {y : System W} (r : Reach (start u) y) where
  -- At any moment of a conversation, the replay that the client builds from the server's event count
  -- brings the server up to date, whatever it had lost: it has committed every request issued, its
  -- hash and event count are the client's, and it refuses no request that the client has sent.
  pub ingest_replay-build_replay :
      let s = ingest_replay y.server (build_replay y.client (event_count y.server.history)) in
      (s.committed_upto + 1 ≡ y.client.next_seq)
      × (s.history.cur_hash ≡ y.client.history.cur_hash)
      × (event_count s.history ≡ event_count y.client.history)
      × All (λ req. needs_recover s req ≡ false) y.requests
  ingest_replay-build_replay =
      let v = Reach-IsConsistent u r in
      let rp = build_replay y.client (event_count y.server.history) in
      let s = ingest_replay y.server rp in
      let (agrees, _, caught_up) =
        ingest_replay-Agrees v.conversation y.server (length y.requests) rp (omega arith)
          (build_replay-IsReplayUpto y.requests y.client (event_count y.server.history) v.follows)
          (unfold build_replay in omega arith) v.agrees in
      let all : s.committed_upto ≡ length y.requests = omega (arith, agrees.behind) in
      let (hash, count) = Agrees-Follows s y.client v.conversation agrees v.follows all in
      (
        omega (arith, v.follows.numbered),
        hash,
        count,
        All-get_elem?_lem (λ req. needs_recover s req ≡ false) y.requests
            (λ i req sent.
              needs_recover-IsConversation s i req v.conversation sent
                (omega (arith, get_elem?-lt y.requests i sent)) agrees.behind),
      )
