-- ===== src/System/Histories.antt =====
-- System: the histories, hashes, mismatches and records of calls of the two sides.
use color.Prelude.{
  ℕ, ◌+◌, ◌≤◌, ◌≡◌, ap, sym, ◌∙◌, false, some, List, [], length, get_elem?, arith, take, drop,
  take-length, take-length_append,
}
use color.Dict.{lookup, contains}
use color.Core.Message.{Seq, Request}
use color.Core.History.{History, event_count}
use color.Core.History.Prefix.{event_count-IsHistoryOf, history_hash}
use color.Core.Transcript.{transcript, upto, transcript-upto-drop, length-upto-le}
use color.Core.Client.{Client}
use color.Core.Client.Invariant.{Follows}
use color.Core.Server.{Server, on_request}
use color.Core.Server.Given.{Gives, on_request-Gives}
use color.Core.Server.Agreement.{IsConversation, Agrees}
use color.Core.Server.Failover.{event_count-Agrees}
use color.System.Safety.{IsConsistent, Reach-IsConsistent}
use color.System.{System, Setup, start, Reach}

-- The server's history is the prefix of the client's that its event count says.
pub record IsPrefixOf (server client : History) : Type 0 where
  pub shorter : event_count server ≤ length client.events
  pub retained : server.events ≡ drop server.base_count (take (event_count server) client.events)
  pub server_hash : server.cur_hash ≡ history_hash (take (event_count server) client.events)
  pub client_hash : client.cur_hash ≡ history_hash client.events

hash_upto_whole :
    (rs : List Request) → history_hash (upto rs (length rs)) ≡ history_hash (transcript rs)
unfolding upto
hash_upto_whole rs = ap (λ qs. history_hash (transcript qs)) (take-length rs)

length-upto_whole : (rs : List Request) → length (upto rs (length rs)) ≡ length (transcript rs)
unfolding upto
length-upto_whole rs = ap (λ qs. length (transcript qs)) (take-length rs)

-- A server that has committed the whole conversation has the client's hash and event count.
pub Agrees-Follows :
    {W : Type 0} {rs : List Request} (s : Server W) (c : Client)
    → IsConversation rs
    → Agrees rs s
    → Follows rs c
    → s.committed_upto ≡ length rs
    → (s.history.cur_hash ≡ c.history.cur_hash) × (event_count s.history ≡ event_count c.history)
Agrees-Follows {rs = rs} s c conv agrees follows done =
    let counted = event_count-Agrees conv s agrees in
    let whole = event_count-IsHistoryOf c.history _ follows.history conv.counted in
    (
      agrees.history.hashed
          ∙ ap (λ k. history_hash (upto rs k)) done
          ∙ hash_upto_whole rs
          ∙ sym follows.history.hashed,
      counted ∙ ap (λ k. length (upto rs k)) done ∙ length-upto_whole rs ∙ sym whole,
    )

module _ {W : Type 0} {y : System W} (v : IsConsistent y) where
  client_events : y.client.history.events ≡ transcript y.requests
  client_events = v.follows.history.retained ∙ rw v.follows.whole

  client_hash : y.client.history.cur_hash ≡ history_hash y.client.history.events
  client_hash = v.follows.history.hashed ∙ ap history_hash (sym client_events)

  server_prefix :
      take (event_count y.server.history) y.client.history.events
      ≡ upto y.requests y.server.committed_upto
  server_prefix =
      rw
        (
          client_events,
          event_count-Agrees v.conversation y.server v.agrees,
          transcript-upto-drop y.requests y.server.committed_upto,
        )
        (take-length_append _ _)

  IsConsistent-IsPrefixOf : IsPrefixOf y.server.history y.client.history
  IsConsistent-IsPrefixOf = record {
    shorter = omega (
      arith,
      event_count-Agrees v.conversation y.server v.agrees,
      length-upto-le y.requests y.server.committed_upto,
      ap length client_events,
    );
    retained =
        v.agrees.history.retained ∙ ap (drop y.server.history.base_count) (sym server_prefix);
    server_hash = v.agrees.history.hashed ∙ ap history_hash (sym server_prefix);
    client_hash = client_hash;
  }

module _ {W : Type 0} (u : Setup W) {y : System W} (r : Reach (start u) y) where
  -- At any moment, after any losses, duplicates, reorderings and failovers, the server's history is
  -- a prefix of the client's: the events that it retains are those of this prefix behind its base
  -- count, and its hash is the prefix's. The client's hash is that of its whole history.
  pub Reach-IsPrefixOf : IsPrefixOf y.server.history y.client.history
  Reach-IsPrefixOf = IsConsistent-IsPrefixOf (Reach-IsConsistent u r)

  -- At any moment of a conversation, neither side has reported a hash mismatch.
  pub mismatches-Reach : (y.client.mismatches ≡ []) × (y.server.mismatches ≡ [])
  mismatches-Reach = ((Reach-IsConsistent u r).follows.quiet, (Reach-IsConsistent u r).agrees.quiet)

  -- At any moment of a conversation: the record of calls of the server process has, for each id, one
  -- call at most, and only ids that it has committed and owes no response to; and the delivery of any
  -- request that was sent calls the application exactly once for each id of a list, with the request
  -- that was sent under this id, where the record had no entry for it before and has one from then
  -- on; the application's state and the record are those that these calls leave.
  pub app_calls-Reach :
      ((k : Seq) (n : ℕ)
        → lookup k y.server.app_calls ≡ some n
        → (n ≡ 1) × (k ≤ y.server.committed_upto) × (contains k y.server.awaiting ≡ false))
      × ((i : ℕ) (req : Request)
          → get_elem? y.requests i ≡ some req
          → let s' = (on_request y.server req).0 in
            (ks : List Seq) × Gives y.requests y.server.app y.server.world y.server.app_calls ks
              s'.world s'.app_calls)
  app_calls-Reach =
      let v = Reach-IsConsistent u r in
      (v.agrees.once, λ i req sent. on_request-Gives v.conversation y.server i req v.agrees sent)

  -- At any moment of a conversation at which the server has committed every request that the client
  -- has issued, the two hashes and the two event counts are equal.
  pub converged :
      y.server.committed_upto + 1 ≡ y.client.next_seq
      → (y.server.history.cur_hash ≡ y.client.history.cur_hash)
        × (event_count y.server.history ≡ event_count y.client.history)
  converged all =
      let v = Reach-IsConsistent u r in
      Agrees-Follows y.server y.client v.conversation v.agrees v.follows
        (omega (arith, v.follows.numbered))
