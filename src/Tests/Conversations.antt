-- ===== src/Tests/Conversations.antt =====
-- The theorems on whole conversations, at the run with a failover.
use color.Prelude.{some, List, get_elem?, ℕ, ◌≡◌, ◌≤◌, refl, [], false}
use color.Dict.{lookup, contains}
use color.Core.Message.{Seq, Request}
use color.Core.Server.{on_request}
use color.Core.Server.Given.{Gives}
use color.Core.History.{event_count}
use color.System.Histories.{
  IsPrefixOf, Reach-IsPrefixOf, mismatches-Reach, app_calls-Reach, converged,
}
use color.Tests.Runs.{running, numbered, recovered, recovered-Reach}

Reach-IsPrefixOf_example : IsPrefixOf recovered.server.history recovered.client.history
Reach-IsPrefixOf_example = Reach-IsPrefixOf numbered recovered-Reach

mismatches-Reach_example : (recovered.client.mismatches ≡ []) × (recovered.server.mismatches ≡ [])
mismatches-Reach_example = mismatches-Reach numbered recovered-Reach

app_calls-Reach_example :
    ((k : Seq) (n : ℕ)
      → lookup k recovered.server.app_calls ≡ some n
      → (n ≡ 1)
        × (k ≤ recovered.server.committed_upto)
        × (contains k recovered.server.awaiting ≡ false))
    × ((i : ℕ) (req : Request)
        → get_elem? recovered.requests i ≡ some req
        → let s' = (on_request recovered.server req).0 in
          (ks : List Seq) × Gives recovered.requests recovered.server.app recovered.server.world
            recovered.server.app_calls ks s'.world s'.app_calls)
app_calls-Reach_example = app_calls-Reach numbered recovered-Reach

converged_example :
    (recovered.server.history.cur_hash ≡ recovered.client.history.cur_hash)
    × (event_count recovered.server.history ≡ event_count recovered.client.history)
unfolding running
converged_example = converged numbered recovered-Reach refl
