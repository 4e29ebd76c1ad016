-- ===== src/Core/Server/Progress.antt =====
-- color_server.cc, `on_request`: the next request of a conversation.
use color.Prelude.{
  ℕ, zero, suc, ◌≤◌, ◌<◌, ◌≡◌, refl, sym, inl, inr, false, some, List, [], ◌∷◌, ◌++◌, arith, length,
  get_elem?, inc64, inc64-eq, Option-cases, Bool-cases, leb, leb→le, not_leb→lt, subst,
}
use color.Dict.{lookup, insert, contains}
use color.Dict.Laws.{lookup-insert_self}
use color.Core.Message.{Seq, Request, Response}
use color.Core.Server.{
  Server, commit, make_response, reprocess, answer_committed, commit_loop, stage, release_acked,
  track_bounds, on_request,
}
use color.Core.Server.Agreement.{IsConversation, Agrees}
use color.Core.Server.Commit.{commit-Agrees}
use color.Core.Server.Staging.{insert-pending_reqs-Agrees, release_acked-Agrees}
use color.Core.Server.Ordering.{InOrder, on_request-InOrder}
use color.Core.Server.Retransmission.{needs_recover-IsConversation}

-- Among the responses is one for `k` that is no recovery signal.
abbrev pub HasAnswer : Seq → List Response → Type 0
HasAnswer k out =
    (j : ℕ) × (resp : Response) × (get_elem? out j ≡ some resp)
    × (resp.seq ≡ k)
    × (resp.recover ≡ false)

first_answer :
    (n : ℕ) (out : List Response) → InOrder n out → 0 < length out → HasAnswer (suc n) out
first_answer n [] h some_out = absurd (omega arith)
first_answer n (resp ∷ out) (seq, _, quiet, _) some_out = (0, resp, refl, seq, quiet)

module _ {W : Type 0} where
  answer_committed-HasAnswer :
      (s : Server W) (req : Request)
      → HasAnswer req.seq (answer_committed s req).1
        × ((answer_committed s req).0.committed_upto ≡ s.committed_upto)
  unfolding answer_committed reprocess make_response
  answer_committed-HasAnswer s req = elim (Option-cases (lookup req.seq s.resp_buffer)) [
    | inl gone ↦ elim (Bool-cases (contains req.seq s.awaiting)) [
      | inl owed ↦ rw (gone, answer_committed) (rw owed ((0, _, refl, refl, refl), refl))
      | inr free ↦ rw (gone, answer_committed) (rw free ((0, _, refl, refl, refl), refl))
    ]
    | inr (payload, found) ↦ rw (found, answer_committed) ((0, _, refl, refl, refl), refl)
  ]

  module _ {rs : List Request} (conv : IsConversation rs) where
    commit_loop-grows :
        (fuel : ℕ) (s : Server W) (out : List Response)
        → Agrees rs s
        → s.committed_upto ≤ (commit_loop fuel s out).0.committed_upto
    unfolding commit_loop
    commit_loop-grows zero s out v = omega arith
    commit_loop-grows (suc fuel) s out v =
        elim (Option-cases (lookup (inc64 s.committed_upto) s.pending_reqs)) [
          | inl e ↦ rw (e, commit_loop) (omega arith)
          | inr (r, e) ↦
              let (after, _, grown) = commit-Agrees conv s r v e in
              let later =
                commit_loop-grows fuel (commit s r).0 (out ++ (commit s r).1 ∷ []) after in
              rw (e, commit_loop) (omega (arith, grown, later))
        ]

    -- The next request is committed at once.
    stage-next :
        (s : Server W) (req : Request)
        → Agrees rs s
        → get_elem? rs s.committed_upto ≡ some req
        → s.committed_upto < (stage s req).0.committed_upto
    unfolding stage commit_loop
    stage-next s req v here =
        let ready : Server W = record s { pending_reqs = insert req.seq req s.pending_reqs } in
        let agrees : Agrees rs ready =
          insert-pending_reqs-Agrees conv s s.committed_upto req v here in
        let behind = v.behind in
        let short = conv.short in
        let next : req.seq ≡ inc64 s.committed_upto =
          omega (arith, conv.numbered s.committed_upto req here, inc64-eq s.committed_upto) in
        let found : lookup (inc64 s.committed_upto) (insert req.seq req s.pending_reqs) ≡ some req =
          subst (λ k. lookup k (insert req.seq req s.pending_reqs) ≡ some req) next
            (lookup-insert_self req.seq req s.pending_reqs) in
        let (after, _, grown) = commit-Agrees conv ready req agrees found in
        let later =
          commit_loop-grows (length (insert req.seq req s.pending_reqs)) (commit ready req).0
            ((commit ready req).1 ∷ []) after in
        rw (found, commit_loop) (omega (arith, grown, later))

    pub on_request-next :
        (s : Server W) (i : ℕ) (req : Request)
        → Agrees rs s
        → get_elem? rs i ≡ some req
        → i ≤ s.committed_upto
        → HasAnswer (suc i) (on_request s req).1 × (suc i ≤ (on_request s req).0.committed_upto)
    unfolding on_request track_bounds release_acked
    on_request-next s i req v here reached =
        let accepted = needs_recover-IsConversation s i req conv here reached v.behind in
        let numbered = conv.numbered i req here in
        elim (Bool-cases (leb req.seq s.committed_upto)) [
          | inl old ↦
              let (answer, same) = answer_committed-HasAnswer (release_acked s req) req in
              let low = leb→le req.seq s.committed_upto old in
              rw (accepted, on_request)
                (rw old (
                  subst (λ k. HasAnswer k (answer_committed (release_acked s req) req).1) numbered
                      answer,
                  omega (arith, same, numbered, low),
                ))
          | inr fresh ↦
              let above = not_leb→lt req.seq s.committed_upto fresh in
              let last : i ≡ s.committed_upto = omega (arith, numbered, above) in
              let (ordered, total, _) = on_request-InOrder conv s i req v here accepted above in
              let grown : s.committed_upto < (on_request s req).0.committed_upto =
                rw (accepted, on_request)
                  (rw fresh (
                    stage-next (release_acked s req) req (release_acked-Agrees conv s req v)
                      (subst (λ k. get_elem? rs k ≡ some req) last here))) in
              (
                subst (λ k. HasAnswer (suc k) (on_request s req).1) (sym last)
                    (first_answer s.committed_upto _ ordered (omega (arith, grown, total))),
                omega (arith, last, grown),
              )
        ]
