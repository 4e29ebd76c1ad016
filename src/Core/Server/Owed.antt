-- ===== src/Core/Server/Owed.antt =====
-- color_server.cc: the responses that a server still owes, and its checkpoint.
use color.Prelude.{
  ◌≤◌, ◌≡◌, refl, ap, ◌∙◌, Bool, true, false, ◌||◌, none, List, [], ◌∷◌, map, arith, inc64, leb,
  ltb, ◌==◌, inl, inr, Bool-cases,
}
use color.Dict.{lookup, contains}
use color.Dict.Laws.{lookup-insert}
use color.Text.{Bytes}
use color.Core.Message.{Seq, Request}
use color.Core.Checkpoint.{BufferedResponse}
use color.Core.Server.{
  App, Server, new_server, release_acked, needs_recover, any_above, make_response, answer_committed,
  reprocess, track_bounds, on_request,
}
use color.Core.Server.Resume.{restore_buffer, resumed_server, buffered, checkpoint}
use color.Core.Server.Retransmission.{lookup-release_acked}

module _ {W : Type 0} where
  restored-none :
      (old : Server W) (k : Seq) (m : List (Seq × Bytes)) (s : Server W)
      → lookup k m ≡ none
      → lookup k s.resp_buffer ≡ none
      → lookup k (restore_buffer (map (buffered old) m) s).resp_buffer ≡ none
  unfolding restore_buffer lookup buffered
  restored-none old k [] s h e = e
  restored-none old k ((j, p) ∷ m) s h e = elim (Bool-cases (j == k)) [
    | inl same ↦ absurd (ground (arith, same))
    | inr other ↦
        restored-none old k m _ (ground (arith, other))
          (lookup-insert j k p s.resp_buffer ∙ rw other e)
  ]

  restored-awaiting :
      (bs : List BufferedResponse) (s : Server W)
      → ((restore_buffer bs s).awaiting ≡ s.awaiting)
        × ((restore_buffer bs s).committed_upto ≡ s.committed_upto)
        × ((restore_buffer bs s).world ≡ s.world)
  unfolding restore_buffer
  restored-awaiting [] s = (refl, refl, refl)
  restored-awaiting (b ∷ bs) s = restored-awaiting bs _

  release_acked-none :
      (s : Server W) (req : Request)
      → lookup req.seq s.resp_buffer ≡ none
      → lookup req.seq (release_acked s req).resp_buffer ≡ none
  release_acked-none s req h =
      elim (Bool-cases (ltb req.seq req.ack_base || contains req.seq req.ack_new)) [
        | inl acked ↦ lookup-release_acked s req req.seq ∙ rw acked refl
        | inr kept ↦ lookup-release_acked s req req.seq ∙ rw kept h
      ]

  -- A committed request without a buffered response, on a server that owes none to it.
  no_op-answer :
      (s : Server W) (req : Request)
      → needs_recover s req ≡ false
      → req.seq ≤ s.committed_upto
      → lookup req.seq s.resp_buffer ≡ none
      → contains req.seq s.awaiting ≡ false
      → ((on_request s req).1 ≡ make_response s req.seq [] true ∷ [])
        × ((on_request s req).0.world ≡ s.world)
  unfolding on_request track_bounds make_response
  no_op-answer s req accepted low gone free =
      let old : leb req.seq s.committed_upto ≡ true = ground arith in
      let none_left = release_acked-none s req gone in
      let answer : answer_committed (release_acked s req) req
          ≡ (release_acked s req, make_response (release_acked s req) req.seq [] true ∷ []) =
        rw (none_left, answer_committed) (unfold release_acked in rw free refl) in
      let same : on_request s req ≡ (
        track_bounds (release_acked s req),
        make_response (release_acked s req) req.seq [] true ∷ [],
      ) =
        rw (accepted, on_request) (rw answer (unfold release_acked in rw old refl)) in
      rw same (unfold release_acked in (refl, refl))

  owed-answer :
      (s : Server W) (req : Request)
      → needs_recover s req ≡ false
      → req.seq ≤ s.committed_upto
      → lookup req.seq s.resp_buffer ≡ none
      → contains req.seq s.awaiting ≡ true
      → let (payload, world) = s.app s.world req.seq req.payload s.history in
        ((on_request s req).1 ≡ make_response s req.seq payload false ∷ [])
        × ((on_request s req).0.world ≡ world)
  unfolding on_request track_bounds reprocess make_response
  owed-answer s req accepted low gone owed =
      let old : leb req.seq s.committed_upto ≡ true = ground arith in
      let none_left = release_acked-none s req gone in
      let answer : answer_committed (release_acked s req) req ≡ (
        (reprocess (release_acked s req) req).0,
        (reprocess (release_acked s req) req).1 ∷ [],
      ) =
        rw (none_left, answer_committed) (unfold release_acked in rw owed refl) in
      let same : on_request s req ≡ (
        track_bounds (reprocess (release_acked s req) req).0,
        (reprocess (release_acked s req) req).1 ∷ [],
      ) =
        rw (accepted, on_request) (rw answer (unfold release_acked in rw old refl)) in
      rw same (unfold release_acked in (refl, refl))

  same_refusal :
      (s t : Server W) (req : Request)
      → t.committed_upto ≡ s.committed_upto
      → needs_recover t req ≡ needs_recover s req
  unfolding needs_recover
  same_refusal s t req e = ap (λ n. ltb (inc64 n) req.ack_base || any_above n req.ack_new) e

  -- Let a server owe a response to a committed request: it stands among the awaiting ones, with no
  -- buffered response, and the server does not refuse it. Sent again, this request is given to the
  -- application once: the one response carries what the application returns for its payload, and the
  -- application is in the state that this call leaves. The checkpoint forgets the debt: a server
  -- resumed from it answers the same request with an empty acknowledgement, and its application's
  -- state is what it was resumed with.
  pub on_request-checkpoint :
      (s : Server W) (req : Request) (app : App W) (world : W) (on_mismatch set_hash : Bool)
      → needs_recover s req ≡ false
      → req.seq ≤ s.committed_upto
      → lookup req.seq s.resp_buffer ≡ none
      → contains req.seq s.awaiting ≡ true
      → let t = resumed_server (checkpoint s) app world on_mismatch set_hash in
        let (payload, world') = s.app s.world req.seq req.payload s.history in
        ((on_request s req).1 ≡ make_response s req.seq payload false ∷ [])
        × ((on_request s req).0.world ≡ world')
        × ((on_request t req).1 ≡ make_response t req.seq [] true ∷ [])
        × ((on_request t req).0.world ≡ world)
  unfolding resumed_server checkpoint new_server contains lookup
  on_request-checkpoint s req app world on_mismatch set_hash accepted low gone owed =
      let t = resumed_server (checkpoint s) app world on_mismatch set_hash in
      let (awaiting, committed, same_world) =
        restored-awaiting (map (buffered s) s.resp_buffer) _ in
      let (answered, called) = owed-answer s req accepted low gone owed in
      let (answer, unmoved) =
        no_op-answer t req (same_refusal s t req committed ∙ accepted) (omega (arith, committed))
          (restored-none s req.seq s.resp_buffer _ gone refl) (ap (contains req.seq) awaiting) in
      (answered, called, answer, unmoved ∙ same_world)
