-- ===== src/Core/Server/Agreement.antt =====
-- color_server.h: what ties the state of a server to a conversation.
use color.Prelude.{
  All, ℕ, suc, ◌+◌, ◌≤◌, ◌<◌, ◌≡◌, refl, ◌⊎◌, Bool, true, false, none, some, List, [], arith,
  length, get_elem?, u64_mod,
}
use color.Text.{Bytes}
use color.Dict.{lookup, contains}
use color.Core.Message.{Seq, Hash, Request, Response}
use color.Core.History.{Event}
use color.Core.History.Prefix.{empty_history-IsHistoryOf, IsHistoryOf}
use color.Core.Transcript.{transcript, upto, hash_upto}
use color.Core.Server.{App, new_server, Server}

-- The requests of a conversation in the order of their ids, numbered from one and stamped, if at
-- all, with the hash of the history up to them; each acknowledges responses to earlier ones only.
pub record IsConversation (rs : List Request) : Type 0 where
  pub numbered : (i : ℕ) (r : Request) → get_elem? rs i ≡ some r → r.seq ≡ suc i
  pub stamps :
      (i : ℕ) (r : Request)
      → get_elem? rs i ≡ some r
      → (r.hash ≡ none) ⊎ (r.hash ≡ some (hash_upto rs (suc i)))
  pub acks :
      (i : ℕ) (r : Request)
      → get_elem? rs i ≡ some r
      → (1 ≤ r.ack_base) × (r.ack_base ≤ suc i) × All (λ k. k ≤ i) r.ack_new
  pub short : length rs + 1 < u64_mod
  pub counted : length (transcript rs) < u64_mod

module _ {W : Type 0} (rs : List Request) where
  -- `es` is the history so far; between two requests it is `upto rs s.committed_upto`.
  pub record AgreesAt (s : Server W) (es : List Event) : Type 0 where
    pub behind : s.committed_upto ≤ length rs
    pub history : IsHistoryOf s.history es
    pub staged :
        (k : Seq) (r : Request)
        → lookup k s.pending_reqs ≡ some r
        → (i : ℕ) × (k ≡ suc i) × (get_elem? rs i ≡ some r)
    pub stamped :
        (k : Seq) (h : Hash)
        → lookup k s.req_hash ≡ some h
        → (k ≤ s.committed_upto) × (h ≡ hash_upto rs k)
    pub buffered :
        (k : Seq) (p : Bytes)
        → lookup k s.resp_buffer ≡ some p
        → (h : Hash) × (lookup k s.req_hash ≡ some h)
    pub once :
        (k : Seq) (n : ℕ)
        → lookup k s.app_calls ≡ some n
        → (n ≡ 1) × (k ≤ s.committed_upto) × (contains k s.awaiting ≡ false)
    pub owed :
        (k : Seq)
        → contains k s.awaiting ≡ true
        → (k ≤ s.committed_upto) × (h : Hash) × (lookup k s.req_hash ≡ some h)
    pub quiet : s.mismatches ≡ []

  abbrev pub Agrees : Server W → Type 0
  Agrees s = AgreesAt s (upto rs s.committed_upto)

-- A response answers a request of the conversation, and carries no hash or that of the conversation
-- up to this request.
pub record Answers (rs : List Request) (resp : Response) : Type 0 where
  pub positive : 1 ≤ resp.seq
  pub issued : resp.seq ≤ length rs
  pub stamp : (h : Hash) → resp.hash ≡ some h → h ≡ hash_upto rs resp.seq

pub nil-IsConversation : IsConversation []
unfolding transcript
nil-IsConversation = record {
  numbered = λ i r e. absurd (cc);
  stamps = λ i r e. absurd (cc);
  acks = λ i r e. absurd (cc);
  short = omega arith;
  counted = omega arith;
}

pub new_server-Agrees :
    {W : Type 0} (app : App W) (world : W) (on_mismatch set_hash : Bool)
    → Agrees [] (new_server app world on_mismatch set_hash)
unfolding new_server upto transcript lookup contains
new_server-Agrees app world on_mismatch set_hash = record {
  behind = omega arith;
  history = empty_history-IsHistoryOf;
  staged = λ k r e. absurd (cc);
  stamped = λ k h e. absurd (cc);
  buffered = λ k p e. absurd (cc);
  once = λ k n e. absurd (cc);
  owed = λ k e. absurd (cc);
  quiet = refl;
}

-- The application's own state plays no part.
pub world-Agrees :
    {W : Type 0} {rs : List Request} (s : Server W) (world : W)
    → Agrees rs s
    → Agrees rs (record s { world = world })
world-Agrees s world v = record {
  behind = v.behind;
  history = v.history;
  staged = v.staged;
  stamped = v.stamped;
  buffered = v.buffered;
  once = v.once;
  owed = v.owed;
  quiet = v.quiet;
}
