-- ===== src/Core/Server/Ordering.antt =====
-- color_server.cc, `on_request`: the order of what the commit loop puts out.
use color.Prelude.{
  ℕ, zero, suc, ◌+◌, ◌<◌, ◌≡◌, refl, inl, inr, false, none, some, List, [], ◌∷◌, ◌++◌, arith,
  length, length-append, get_elem?, inc64, Option-cases, leb,
}
use color.Dict.{lookup, insert}
use color.Core.Message.{Request, Response}
use color.Core.Server.{
  Server, commit, process, make_response, commit_loop, stage, release_acked, track_bounds,
  needs_recover, on_request,
}
use color.Core.Server.Agreement.{IsConversation, Agrees}
use color.Core.Server.Commit.{commit-Agrees, next_request}
use color.Core.Server.Staging.{
  commit_loop-drained, insert-pending_reqs-Agrees, release_acked-Agrees,
}

-- Application responses to the requests that follow `n`, one each, in order.
abbrev pub InOrder : ℕ → List Response → Type 0
InOrder n [] = Unit
InOrder n (resp ∷ out) =
    (resp.seq ≡ suc n) × (resp.no_op ≡ false) × (resp.recover ≡ false) × InOrder (suc n) out

InOrder-append :
    (n : ℕ) (out : List Response) (resp : Response)
    → InOrder n out
    → resp.seq ≡ suc (n + length out)
    → resp.no_op ≡ false
    → resp.recover ≡ false
    → InOrder n (out ++ resp ∷ [])
InOrder-append n [] resp h e plain quiet = (omega (arith, e), plain, quiet, tt)
InOrder-append n (first ∷ out) resp h e plain quiet =
    let (seq, first_plain, first_quiet, rest) = h in
    (
      seq,
      first_plain,
      first_quiet,
      InOrder-append (suc n) out resp rest (omega (arith, e)) plain quiet,
    )

commit-response :
    {W : Type 0} (s : Server W) (r : Request)
    → ((commit s r).1.seq ≡ r.seq)
      × ((commit s r).1.no_op ≡ false)
      × ((commit s r).1.recover ≡ false)
unfolding commit process make_response
commit-response s r = (refl, refl, refl)

module _ {W : Type 0} {rs : List Request} (conv : IsConversation rs) where
  commit_loop-InOrder :
      (fuel : ℕ) (s : Server W) (out : List Response) (n : ℕ)
      → Agrees rs s
      → InOrder n out
      → n + length out ≡ s.committed_upto
      → InOrder n (commit_loop fuel s out).1
        × (n + length (commit_loop fuel s out).1 ≡ (commit_loop fuel s out).0.committed_upto)
  unfolding commit_loop
  commit_loop-InOrder zero s out n v ok total = (ok, total)
  commit_loop-InOrder (suc fuel) s out n v ok total =
      elim (Option-cases (lookup (inc64 s.committed_upto) s.pending_reqs)) [
        | inl e ↦ rw (e, commit_loop) (ok, total)
        | inr (r, e) ↦
            let (after, _, grown) = commit-Agrees conv s r v e in
            let (_, numbered) = next_request conv s _ r v e in
            let (seq, plain, quiet) = commit-response s r in
            rw (e, commit_loop)
              (commit_loop-InOrder fuel (commit s r).0 (out ++ (commit s r).1 ∷ []) n after
                (InOrder-append n out (commit s r).1 ok (omega (arith, seq, numbered)) plain quiet)
                (omega (arith, length-append out ((commit s r).1 ∷ []), grown)))
      ]

  stage-InOrder :
      (s : Server W) (i : ℕ) (req : Request)
      → Agrees rs s
      → get_elem? rs i ≡ some req
      → let (s', out) = stage s req in
        InOrder s.committed_upto out
        × (s.committed_upto + length out ≡ s'.committed_upto)
        × (lookup (inc64 s'.committed_upto) s'.pending_reqs ≡ none)
  unfolding stage
  stage-InOrder s i req v here =
      let ready : Server W = record s { pending_reqs = insert req.seq req s.pending_reqs } in
      let fuel = suc (length (insert req.seq req s.pending_reqs)) in
      let (ordered, total) =
        commit_loop-InOrder fuel ready [] s.committed_upto
          (insert-pending_reqs-Agrees conv s i req v here) tt (omega arith) in
      (ordered, total, commit_loop-drained fuel ready [] (omega arith))

  pub on_request-InOrder :
      (s : Server W) (i : ℕ) (req : Request)
      → Agrees rs s
      → get_elem? rs i ≡ some req
      → needs_recover s req ≡ false
      → s.committed_upto < req.seq
      → let (s', out) = on_request s req in
        InOrder s.committed_upto out
        × (s.committed_upto + length out ≡ s'.committed_upto)
        × (lookup (inc64 s'.committed_upto) s'.pending_reqs ≡ none)
  unfolding on_request release_acked track_bounds
  on_request-InOrder s i req v here accepted fresh =
      let later : leb req.seq s.committed_upto ≡ false = ground arith in
      rw (accepted, on_request)
        (rw later
          (stage-InOrder (release_acked s req) i req (release_acked-Agrees conv s req v) here))
