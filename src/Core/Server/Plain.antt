-- ===== src/Core/Server/Plain.antt =====
-- color_server.cc, `on_request`: recovery signals among the responses.
use color.Prelude.{
  ℕ, zero, suc, ◌≡◌, refl, inl, inr, true, false, List, [], ◌∷◌, leb, All, All-append, Bool-cases,
  Option-cases, inc64, length,
}
use color.Dict.{lookup, insert, contains}
use color.Core.Message.{Request, Response}
use color.Core.Server.{
  Server, make_response, process, commit, commit_loop, reprocess, answer_committed, stage,
  release_acked, needs_recover, recovery_signal, on_request,
}

abbrev pub IsPlain : Response → Type 0
IsPlain resp = resp.recover ≡ false

module _ {W : Type 0} where
  commit-IsPlain : (s : Server W) (r : Request) → IsPlain (commit s r).1
  unfolding commit process make_response
  commit-IsPlain s r = refl

  commit_loop-IsPlain :
      (fuel : ℕ) (s : Server W) (out : List Response)
      → All IsPlain out
      → All IsPlain (commit_loop fuel s out).1
  unfolding commit_loop
  commit_loop-IsPlain zero s out v = v
  commit_loop-IsPlain (suc fuel) s out v =
      elim (Option-cases (lookup (inc64 s.committed_upto) s.pending_reqs)) [
        | inl e ↦ rw (e, commit_loop) v
        | inr (r, e) ↦
            rw (e, commit_loop)
              (commit_loop-IsPlain fuel (commit s r).0 _
                (All-append IsPlain out _ v (commit-IsPlain s r, tt)))
      ]

  stage-IsPlain : (s : Server W) (req : Request) → All IsPlain (stage s req).1
  unfolding stage
  stage-IsPlain s req =
      let pending = insert req.seq req s.pending_reqs in
      commit_loop-IsPlain (suc (length pending)) (record s { pending_reqs = pending }) [] tt

  answer_committed-IsPlain : (s : Server W) (req : Request) → All IsPlain (answer_committed s req).1
  unfolding answer_committed make_response reprocess
  answer_committed-IsPlain s req = elim (Option-cases (lookup req.seq s.resp_buffer)) [
    | inr (payload, e) ↦ rw (e, answer_committed) (refl, tt)
    | inl e ↦ elim (Bool-cases (contains req.seq s.awaiting)) [
      | inl owed ↦ rw (e, answer_committed) (rw owed (refl, tt))
      | inr done ↦ rw (e, answer_committed) (rw done (refl, tt))
    ]
  ]

  pub on_request-IsPlain :
      (s : Server W) (req : Request)
      → needs_recover s req ≡ false
      → All IsPlain (on_request s req).1
  unfolding on_request
  on_request-IsPlain s req h =
      elim (Bool-cases (leb req.seq (release_acked s req).committed_upto)) [
        | inl old ↦ rw (h, on_request) (rw old (answer_committed-IsPlain (release_acked s req) req))
        | inr fresh ↦ rw (h, on_request) (rw fresh (stage-IsPlain (release_acked s req) req))
      ]

  pub on_request-signal :
      (s : Server W) (req : Request)
      → needs_recover s req ≡ true
      → on_request s req ≡ (s, recovery_signal s req ∷ [])
  unfolding on_request
  on_request-signal s req h = rw (h, on_request)
