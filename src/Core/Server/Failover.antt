-- ===== src/Core/Server/Failover.antt =====
-- color_server.cc: `checkpoint` and the server resumed from it, in a conversation.
use color.Prelude.{
  ℕ, ◌≤◌, ◌≡◌, refl, ap, sym, ◌∙◌, inl, inr, Bool, some, List, [], ◌∷◌, arith, length, ◌==◌,
  ==_self, Bool-cases, subst, All, All-mono, All-map,
}
use color.Text.{Bytes}
use color.Dict.{lookup, insert, contains}
use color.Dict.Laws.{found-insert, lookup-insert_self, kept-insert}
use color.Core.Message.{Seq, Request}
use color.Core.History.{Event, event_count, resumed_history}
use color.Core.History.Prefix.{resumed_history-IsHistoryOf, event_count-IsHistoryOf}
use color.Core.Transcript.{upto, hash_upto, length-upto-le}
use color.Core.Checkpoint.{BufferedResponse, Checkpoint}
use color.Core.Server.{App, Server, new_server}
use color.Core.Server.Resume.{checkpoint, buffered, restore_buffer, resumed_server}
use color.Core.Server.Agreement.{IsConversation, AgreesAt, Agrees}

-- A checkpoint of a server that agrees with the conversation.
pub record IsCheckpointOf (rs : List Request) (cp : Checkpoint) : Type 0 where
  pub behind : cp.committed_upto ≤ length rs
  pub counted : cp.event_count ≡ length (upto rs cp.committed_upto)
  pub hashed : cp.history_hash ≡ hash_upto rs cp.committed_upto
  pub entries : All (λ b. (b.seq ≤ cp.committed_upto) × (b.hash ≡ hash_upto rs b.seq)) cp.buffer

lookup-cons :
    {V : Type 0} (k j : ℕ) (v : V) (m : List (ℕ × V))
    → (w : V) × (lookup j m ≡ some w)
    → (w : V) × (lookup j ((k, v) ∷ m) ≡ some w)
unfolding lookup
lookup-cons k j v m (w, e) = elim (Bool-cases (k == j)) [
  | inl same ↦ (v, rw same)
  | inr other ↦ (w, rw other e)
]

-- Whatever is stored is found under its key.
stored-found : {V : Type 0} (m : List (ℕ × V)) → All (λ kv. (v : V) × (lookup kv.0 m ≡ some v)) m
stored-found [] = tt
stored-found ((k, v) ∷ m) = (
  (v, unfold lookup in rw ==_self),
  All-mono m (λ kv found. lookup-cons k kv.0 v m found) (stored-found m),
)

module _ {W : Type 0} {rs : List Request} (conv : IsConversation rs) where
  pub event_count-Agrees :
      (s : Server W) → Agrees rs s → event_count s.history ≡ length (upto rs s.committed_upto)
  event_count-Agrees s v =
      event_count-IsHistoryOf s.history _ v.history
        (omega (arith, length-upto-le rs s.committed_upto, conv.counted))

  buffered_entry :
      (s : Server W)
      → Agrees rs s
      → (k : Seq) (payload : Bytes) → (p : Bytes) × (lookup k s.resp_buffer ≡ some p)
      → (k ≤ s.committed_upto) × ((buffered s (k, payload)).hash ≡ hash_upto rs k)
  unfolding buffered
  buffered_entry s v k payload (p, found) =
      let (h, known) = v.buffered k p found in
      let (low, hash) = v.stamped k h known in (low, rw (known, buffered) hash)

  pub checkpoint-IsCheckpointOf : (s : Server W) → Agrees rs s → IsCheckpointOf rs (checkpoint s)
  unfolding checkpoint hash_upto
  checkpoint-IsCheckpointOf s v = record {
    behind = v.behind;
    counted = event_count-Agrees s v;
    hashed = v.history.hashed;
    entries =
        All-map (λ b. (b.seq ≤ s.committed_upto) × (b.hash ≡ hash_upto rs b.seq)) (buffered s)
          s.resp_buffer
          (All-mono s.resp_buffer (λ kv found. buffered_entry s v kv.0 kv.1 found)
            (stored-found s.resp_buffer));
  }

  restore_buffer-AgreesAt :
      (es : List Event) (bs : List BufferedResponse) (s : Server W)
      → AgreesAt rs s es
      → All (λ b. (b.seq ≤ s.committed_upto) × (b.hash ≡ hash_upto rs b.seq)) bs
      → AgreesAt rs (restore_buffer bs s) es
        × ((restore_buffer bs s).committed_upto ≡ s.committed_upto)
  unfolding restore_buffer
  restore_buffer-AgreesAt es [] s v ok = (v, refl)
  restore_buffer-AgreesAt es (b ∷ bs) s v ok = restore_buffer-AgreesAt es bs next stored ok.1
    where
      next : Server W
      next = record s {
        resp_buffer = insert b.seq b.payload s.resp_buffer;
        req_hash = insert b.seq b.hash s.req_hash;
      }

      stored : AgreesAt rs next es
      stored = record {
        behind = v.behind;
        history = v.history;
        staged = v.staged;
        stamped = λ k h e. elim (found-insert b.seq k b.hash s.req_hash e) [
          | inl (same, hash) ↦ (omega (arith, ok.0.0), sym hash ∙ ok.0.1 ∙ ap (hash_upto rs) same)
          | inr (_, old) ↦ v.stamped k h old
        ];
        buffered = λ k p e. elim (found-insert b.seq k b.payload s.resp_buffer e) [
          | inl (same, _) ↦ (
            b.hash,
            subst (λ j. lookup j (insert b.seq b.hash s.req_hash) ≡ some b.hash) same
                (lookup-insert_self b.seq b.hash s.req_hash),
          )
          | inr (_, old) ↦ kept-insert b.seq k b.hash s.req_hash (v.buffered k p old).1
        ];
        once = v.once;
        owed = λ k e.
            let (low, h, known) = v.owed k e in
            let (h', kept) = kept-insert b.seq k b.hash s.req_hash known in (low, h', kept);
        quiet = v.quiet;
      }

  pub resumed_server-Agrees :
      (cp : Checkpoint) (app : App W) (world : W) (on_mismatch set_hash : Bool)
      → IsCheckpointOf rs cp
      → Agrees rs (resumed_server cp app world on_mismatch set_hash)
  unfolding resumed_server lookup contains hash_upto
  resumed_server-Agrees cp app world on_mismatch set_hash ok =
      let (restored, same) =
        restore_buffer-AgreesAt (upto rs cp.committed_upto) cp.buffer start fresh ok.entries in
      subst (λ k. AgreesAt rs (resumed_server cp app world on_mismatch set_hash) (upto rs k))
        (sym same) restored
    where
      start : Server W
      start = record (new_server app world on_mismatch set_hash) {
        committed_upto = cp.committed_upto;
        history = resumed_history cp.history_hash cp.event_count;
      }

      fresh : AgreesAt rs start (upto rs cp.committed_upto)
      fresh = record {
        behind = ok.behind;
        history =
            rw (ok.counted, ok.hashed) (resumed_history-IsHistoryOf (upto rs cp.committed_upto));
        staged = λ k r e. absurd (cc);
        stamped = λ k h e. absurd (cc);
        buffered = λ k p e. absurd (cc);
        once = λ k n e. absurd (cc);
        owed = λ k e. absurd (cc);
        quiet = refl;
      }
