-- ===== src/Core/Client/Invariant.antt =====
-- color_client.cc: the client's side of a conversation, and what `build_replay` builds of it.
use color.Prelude.{
  ℕ, suc, ◌-◌, ◌≤◌, ◌<◌, ◌≡◌, refl, ap, sym, ◌∙◌, inl, inr, Bool, true, some, List, [], ◌∷◌, map,
  arith, length, get_elem?, ltb, ltb→lt, Bool-cases, All, drop, take-length,
}
use color.Dict.{lookup, contains}
use color.Core.Message.{Seq, Hash, Request}
use color.Core.History.{Event, empty_history}
use color.Core.History.Prefix.{IsHistoryOf, empty_history-IsHistoryOf}
use color.Core.Transcript.{transcript, upto, hash_upto}
use color.Core.Server.Recovery.{IsReplayUpto}
use color.Core.Server.Ingest.{event_of}
use color.Core.Client.{Client, new_client, build_replay, replay_event}

pub record Follows (rs : List Request) (c : Client) : Type 0 where
  pub numbered : c.next_seq ≡ suc (length rs)
  pub history : IsHistoryOf c.history (transcript rs)
  pub whole : c.history.base_count ≡ 0
  pub stamped :
      (k : Seq) (h : Hash) → lookup k c.req_hash ≡ some h → (k ≤ length rs) × (h ≡ hash_upto rs k)
  pub frozen :
      (k : Seq) (r : Request)
      → lookup k c.inflight ≡ some r
      → (i : ℕ) × (k ≡ suc i) × (get_elem? rs i ≡ some r)
  pub known : (k : Seq) → contains k c.received ≡ true → (1 ≤ k) × (k ≤ length rs)
  pub started : 1 ≤ c.base
  pub based : (k : Seq) → 1 ≤ k → k < c.base → contains k c.received ≡ true
  pub acked : All (λ k. contains k c.received ≡ true) c.pending_new
  pub quiet : c.mismatches ≡ []

pub new_client-Follows :
    (deliver on_mismatch set_hash : Bool) → Follows [] (new_client deliver on_mismatch set_hash)
unfolding new_client transcript lookup contains empty_history
new_client-Follows deliver on_mismatch set_hash = record {
  numbered = refl;
  history = empty_history-IsHistoryOf;
  whole = refl;
  stamped = λ k h e. absurd (cc);
  frozen = λ k r e. absurd (cc);
  known = λ k e. absurd (cc);
  started = omega arith;
  based = λ k one low. absurd (omega arith);
  acked = tt;
  quiet = refl;
}

-- Every id below the base has been received, so it was issued.
pub Follows-base_bound : (rs : List Request) (c : Client) → Follows rs c → c.base ≤ suc (length rs)
Follows-base_bound rs c v = elim (Bool-cases (ltb c.base 2)) [
  | inl first ↦ omega (arith, ltb→lt c.base 2 first)
  | inr later ↦
      let base : 2 ≤ c.base = ground arith in
      omega (arith, (v.known (c.base - 1) (v.based (c.base - 1) (omega arith) (omega arith))).1)
]

-- What `build_replay` builds is the history from the requested position on.
pub build_replay-IsReplayUpto :
    (rs : List Request) (c : Client) (from : ℕ)
    → Follows rs c
    → IsReplayUpto rs (length rs) (build_replay c from)
unfolding build_replay replay_event upto
build_replay-IsReplayUpto rs c from v =
    map_bare (drop from c.history.events)
    ∙ ap (drop from) (v.history.retained ∙ rw v.whole (sym (ap transcript (take-length rs))))
  where
    map_bare : (es : List Event) → map event_of (map (replay_event c) es) ≡ es
    map_bare [] = refl
    map_bare (e ∷ es) = ap (◌∷◌ e) (map_bare es)
