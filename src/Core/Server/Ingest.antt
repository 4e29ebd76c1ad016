-- ===== src/Core/Server/Ingest.antt =====
-- color_server.cc, `ingest_replay`: the events of a replay, one after the other.
use color.Prelude.{
  ℕ, suc, ◌+◌, ◌≤◌, ◌≡◌, refl, ap, sym, ◌∙◌, inl, inr, some, List, [], ◌∷◌, ◌++◌, map, arith,
  length, get_elem?, get_elem?-lt, subst, append-nil, append_assoc, ==_of_ne,
}
use color.Dict.Laws.{
  found-erase, found-insert, kept-insert, inserted, contained-add, contained-remove, contains-add,
  contains-remove,
}
use color.Core.Message.{Seq, Request}
use color.Core.History.{Event, append}
use color.Core.History.Prefix.{
  IsHistoryOf, history_hash, response_event, request_event, append-IsHistoryOf,
}
use color.Core.Transcript.{transcript, upto, hash_upto, upto-suc, block}
use color.Core.Checkpoint.{ReplayEvent}
use color.Core.Server.{Server}
use color.Core.Server.Resume.{ingest_event, ingest_events}
use color.Core.Server.Agreement.{IsConversation, AgreesAt, Agrees}

-- The history event that an event of a replay stands for.
abbrev pub event_of : ReplayEvent → Event
event_of e = record { is_response = e.is_response; seq = e.seq }

-- `ingest_events` over plain events: the loop reads nothing else of them.
bare : Event → ReplayEvent
bare e = record { is_response = e.is_response; seq = e.seq; payload = []; hash = 0 }

module _ {W : Type 0} where
  pub ingest : Server W → List Event → Server W
  unfolding bare
  ingest s [] = s
  ingest s (e ∷ es) = ingest (ingest_event s (bare e)) es

  pub ingest_nothing : (s : Server W) → ingest s [] ≡ s
  unfolding ingest
  ingest_nothing s = refl

  pub ingest_events-ingest :
      (s : Server W) (es : List ReplayEvent) → ingest_events s es ≡ ingest s (map event_of es)
  unfolding ingest ingest_events
  ingest_events-ingest s [] = refl
  ingest_events-ingest s (e ∷ es) = ingest_events-ingest (ingest_event s e) es

  ingest-append :
      (s : Server W) (es fs : List Event) → ingest s (es ++ fs) ≡ ingest (ingest s es) fs
  unfolding ingest
  ingest-append s [] fs = refl
  ingest-append s (e ∷ es) fs = ingest-append (ingest_event s (bare e)) es fs

module _ {W : Type 0} {rs : List Request} (conv : IsConversation rs) where
  ingest_response-AgreesAt :
      (s : Server W) (es : List Event) (i : Seq)
      → AgreesAt rs s es
      → AgreesAt rs (ingest_event s (bare (response_event i))) (es ++ response_event i ∷ [])
  unfolding ingest_event bare
  ingest_response-AgreesAt s es i v = record {
    behind = v.behind;
    history = (append-IsHistoryOf s.history es (response_event i) v.history).0;
    staged = v.staged;
    stamped = v.stamped;
    buffered = λ k p e. v.buffered k p (found-erase i k s.resp_buffer e).1;
    once = λ k n e.
        let (one, low, done) = v.once k n e in
        (one, low, ground (arith, contains-remove i k s.awaiting));
    owed = λ k e. v.owed k (contained-remove i k s.awaiting e).1;
    quiet = v.quiet;
  }

  ingest_responses-AgreesAt :
      (acks : List Seq) (s : Server W) (es : List Event)
      → AgreesAt rs s es
      → AgreesAt rs (ingest s (map response_event acks)) (es ++ map response_event acks)
        × ((ingest s (map response_event acks)).committed_upto ≡ s.committed_upto)
  unfolding ingest
  ingest_responses-AgreesAt [] s es v = (rw append-nil v, refl)
  ingest_responses-AgreesAt (i ∷ acks) s es v =
      let (after, same) =
        ingest_responses-AgreesAt acks (ingest_event s (bare (response_event i)))
          (es ++ response_event i ∷ []) (ingest_response-AgreesAt s es i v) in
      (rw append_assoc at after, same ∙ unfold ingest_event in refl)

  ingest_request-committed :
      (s : Server W) (r : Request)
      → r.seq ≡ suc s.committed_upto
      → (ingest_event s (bare (request_event r.seq))).committed_upto ≡ suc s.committed_upto
  unfolding ingest_event bare
  ingest_request-committed s r h = ground arith

  ingest_request-AgreesAt :
      (s : Server W) (r : Request)
      → get_elem? rs s.committed_upto ≡ some r
      → r.seq ≡ suc s.committed_upto
      → AgreesAt rs s (upto rs s.committed_upto ++ map response_event r.ack_new)
      → AgreesAt rs (ingest_event s (bare (request_event r.seq))) (upto rs (suc s.committed_upto))
  unfolding ingest_event bare hash_upto
  ingest_request-AgreesAt s r here numbered v = record {
    behind = subst (λ m. m ≤ length rs) (sym committed) (get_elem?-lt rs s.committed_upto here);
    history = subst (IsHistoryOf _) whole written.0;
    staged = v.staged;
    stamped = λ k h e. elim (found-insert r.seq k _ s.req_hash e) [
      | inl (same, hash) ↦ (
        subst (λ m. k ≤ m) (sym committed) (omega (arith, same)),
        sym hash ∙ written.1 ∙ ap history_hash whole ∙ ap (hash_upto rs) (sym numbered ∙ same),
      )
      | inr (_, old) ↦ (rise k (v.stamped k h old).0, (v.stamped k h old).1)
    ];
    buffered = λ k p e. kept-insert r.seq k _ s.req_hash (v.buffered k p e).1;
    once = λ k n e.
        let (one, low, done) = v.once k n e in
        (
          one,
          rise k low,
          contains-add r.seq k s.awaiting ∙ rw (==_of_ne r.seq k (omega arith)) done,
        );
    owed = λ k e. elim (contained-add r.seq k s.awaiting e) [
      | inl same ↦
          let (h, known) =
            inserted r.seq k (append s.history (request_event r.seq)).1 s.req_hash same in
          (subst (λ m. k ≤ m) (sym committed) (omega (arith, same)), h, known)
      | inr old ↦
          let (low, h, known) = v.owed k old in
          let (h', kept) = kept-insert r.seq k _ s.req_hash known in (rise k low, h', kept)
    ];
    quiet = v.quiet;
  }
    where
      written :
          IsHistoryOf
            (append s.history (request_event r.seq)).0
            ((upto rs s.committed_upto ++ map response_event r.ack_new) ++ request_event r.seq ∷ [])
          × ((append s.history (request_event r.seq)).1
              ≡ history_hash (
                  (upto rs s.committed_upto ++ map response_event r.ack_new)
                  ++ request_event r.seq ∷ []))
      written = append-IsHistoryOf s.history _ (request_event r.seq) v.history

      whole :
          (upto rs s.committed_upto ++ map response_event r.ack_new) ++ request_event r.seq ∷ []
          ≡ upto rs (suc s.committed_upto)
      whole =
          append_assoc (upto rs s.committed_upto) (map response_event r.ack_new)
            (request_event r.seq ∷ [])
          ∙ sym (upto-suc rs s.committed_upto here)

      committed :
          (ingest_event s (bare (request_event r.seq))).committed_upto ≡ suc s.committed_upto
      committed = ingest_request-committed s r numbered

      rise :
          (k : Seq)
          → k ≤ s.committed_upto
          → k ≤ (ingest_event s (bare (request_event r.seq))).committed_upto
      rise k low = subst (λ m. k ≤ m) (sym committed) (omega arith)

  -- One block of the transcript.
  ingest-block-Agrees :
      (s : Server W) (r : Request)
      → get_elem? rs s.committed_upto ≡ some r
      → Agrees rs s
      → Agrees rs (ingest s (block r))
        × ((ingest s (block r)).committed_upto ≡ suc s.committed_upto)
  ingest-block-Agrees s r here v =
      let (after, same) = ingest_responses-AgreesAt r.ack_new s (upto rs s.committed_upto) v in
      let numbered = conv.numbered s.committed_upto r here in
      let mid : Server W = ingest s (map response_event r.ack_new) in
      let done = ingest_request-AgreesAt mid r (rw same here) (rw same numbered) (
        subst (λ c. AgreesAt rs mid (upto rs c ++ map response_event r.ack_new)) (sym same)
          after) in
      let committed = ingest_request-committed mid r (rw same numbered) in
      rw (ingest-append s (map response_event r.ack_new) (request_event r.seq ∷ [])) (
        unfold ingest in
            subst (λ k. AgreesAt rs (ingest_event mid (bare (request_event r.seq))) (upto rs k))
              (sym committed) done,
        unfold ingest in committed ∙ ap suc same,
      )

  pub ingest-transcript-Agrees :
      (qs : List Request) (s : Server W)
      → ((i : ℕ) (r : Request)
          → get_elem? qs i ≡ some r
          → get_elem? rs (s.committed_upto + i) ≡ some r)
      → Agrees rs s
      → Agrees rs (ingest s (transcript qs))
        × ((ingest s (transcript qs)).committed_upto ≡ s.committed_upto + length qs)
  unfolding transcript
  ingest-transcript-Agrees [] s next v = unfold ingest in (v, omega arith)
  ingest-transcript-Agrees (r ∷ qs) s next v =
      let here : get_elem? rs s.committed_upto ≡ some r =
        subst (λ i. get_elem? rs i ≡ some r) (omega arith) (next 0 r refl) in
      let (after, same) = ingest-block-Agrees s r here v in
      let later : (i : ℕ) (q : Request)
          → get_elem? qs i ≡ some q
          → get_elem? rs ((ingest s (block r)).committed_upto + i) ≡ some q =
        λ i q e. subst (λ j. get_elem? rs j ≡ some q) (omega (arith, same)) (next (suc i) q e) in
      let (whole, total) = ingest-transcript-Agrees qs (ingest s (block r)) later after in
      rw (ingest-append s (block r) (transcript qs)) (whole, omega (arith, total, same))
