-- ===== src/Core/Server/Serving.antt =====
-- color_server.cc, `on_request`: what the commit loop calls the application with.
use color.Prelude.{
  ℕ, zero, suc, ◌+◌, ◌<◌, ◌≡◌, refl, ap, sym, ◌∙◌, inl, inr, false, none, some, List, [], ◌∷◌, ◌++◌,
  arith, length, length-append, get_elem?, inc64, Option-cases, leb, subst,
}
use color.Dict.{lookup, insert}
use color.Core.Message.{Seq, Request, Response, Hash}
use color.Core.History.Prefix.{IsHistoryOf}
use color.Core.Transcript.{upto}
use color.Core.Server.{
  App, Server, commit, process, write_request, make_response, commit_loop, stage, release_acked,
  track_bounds, needs_recover, on_request, count_call, check_hash,
}
use color.Core.Server.Agreement.{IsConversation, Agrees}
use color.Core.Server.Commit.{commit-Agrees, next_request}
use color.Core.Server.Staging.{insert-pending_reqs-Agrees, release_acked-Agrees}
use color.Core.Server.Served.{Served, Served-append}

pub count_call-new :
    (k : Seq) (calls : List (Seq × ℕ))
    → lookup k calls ≡ none
    → count_call k calls ≡ insert k 1 calls
unfolding count_call
count_call-new k calls h = rw h refl

module _ {W : Type 0} {rs : List Request} (conv : IsConversation rs) where
  check_hash-kept :
      (s : Server W) (r : Request) (h : Hash)
      → ((check_hash s r h).app ≡ s.app)
        × ((check_hash s r h).world ≡ s.world)
        × ((check_hash s r h).app_calls ≡ s.app_calls)
        × ((check_hash s r h).history ≡ s.history)
  unfolding check_hash
  check_hash-kept s r h = ground arith

  -- What a round of the commit loop does with the application.
  commit-called :
      (s : Server W) (r : Request)
      → let (s', resp) = commit s r in
        let h = s'.history in
        (s'.app ≡ s.app)
        × (s'.world ≡ (s.app s.world r.seq r.payload h).1)
        × (s'.app_calls ≡ count_call r.seq s.app_calls)
        × (resp.seq ≡ r.seq)
        × (resp.payload ≡ (s.app s.world r.seq r.payload h).0)
  unfolding commit process write_request make_response
  commit-called s r =
      let (s₁, hash) = write_request s r in
      let (app, world, calls, history) = check_hash-kept s₁ r hash in
      (
        app,
        ap (λ f. (f (check_hash s₁ r hash).world r.seq r.payload (check_hash s₁ r hash).history).1)
              app
            ∙ ap (λ w. (s.app w r.seq r.payload (check_hash s₁ r hash).history).1) world,
        ap (count_call r.seq) calls,
        refl,
        ap (λ f. (f (check_hash s₁ r hash).world r.seq r.payload (check_hash s₁ r hash).history).0)
              app
            ∙ ap (λ w. (s.app w r.seq r.payload (check_hash s₁ r hash).history).0) world,
      )

  uncalled :
      (s : Server W) → Agrees rs s → (k : Seq) → s.committed_upto < k → lookup k s.app_calls ≡ none
  uncalled s v k above = elim (Option-cases (lookup k s.app_calls)) [
    | inl e ↦ e
    | inr (n, e) ↦ absurd (omega (arith, (v.once k n e).1))
  ]

  commit_loop-Served :
      (fuel : ℕ) (s : Server W) (out : List Response) (n : ℕ) (app : App W) (w : W)
      (calls : List (Seq × ℕ))
      → Agrees rs s
      → s.app ≡ app
      → n + length out ≡ s.committed_upto
      → Served rs app n w calls out s.world s.app_calls
      → let (s', out') = commit_loop fuel s out in
        Served rs app n w calls out' s'.world s'.app_calls
  unfolding commit_loop
  commit_loop-Served zero s out n app w calls v same total ok = ok
  commit_loop-Served (suc fuel) s out n app w calls v same total ok =
      elim (Option-cases (lookup (inc64 s.committed_upto) s.pending_reqs)) [
        | inl e ↦ rw (e, commit_loop) ok
        | inr (r, e) ↦
            let (after, _, grown) = commit-Agrees conv s r v e in
            let (here, numbered) = next_request conv s _ r v e in
            let (app', world, counted, seq, answer) = commit-called s r in
            let m = n + length out in
            let at_m : r.seq ≡ suc m = omega (arith, numbered, total) in
            let fresh = uncalled s v (suc m) (omega (arith, total)) in
            let h = (commit s r).0.history in
            let whole : IsHistoryOf h (upto rs (suc m)) =
              subst (λ k. IsHistoryOf h (upto rs k)) (omega (arith, grown, total)) after.history in
            let w' : (commit s r).0.world ≡ (app s.world (suc m) r.payload h).1 =
              world
              ∙ ap (λ f. (f s.world r.seq r.payload h).1) same
              ∙ ap (λ k. (app s.world k r.payload h).1) at_m in
            let a' : (commit s r).1.payload ≡ (app s.world (suc m) r.payload h).0 =
              answer
              ∙ ap (λ f. (f s.world r.seq r.payload h).0) same
              ∙ ap (λ k. (app s.world k r.payload h).0) at_m in
            let c' : (commit s r).0.app_calls ≡ insert (suc m) 1 s.app_calls =
              counted
              ∙ ap (λ k. count_call k s.app_calls) at_m
              ∙ count_call-new (suc m) s.app_calls fresh in
            let one : Served rs app n w calls (out ++ (commit s r).1 ∷ [])
                (app s.world (suc m) r.payload h).1 (insert (suc m) 1 s.app_calls) =
              Served-append rs app n w calls out (commit s r).1 s.world s.app_calls r h ok
                (subst (λ k. get_elem? rs k ≡ some r) (sym total) here) whole (seq ∙ at_m) a'
                fresh in
            rw (e, commit_loop)
              (commit_loop-Served fuel (commit s r).0 (out ++ (commit s r).1 ∷ []) n app w calls
                after (app' ∙ same)
                (omega (arith, length-append out ((commit s r).1 ∷ []), grown, total))
                (subst
                  (λ v.
                    Served rs app n w calls (out ++ (commit s r).1 ∷ []) v (commit s r).0.app_calls)
                  (sym w')
                  (subst
                    (λ cs.
                      Served rs app n w calls (out ++ (commit s r).1 ∷ [])
                        (app s.world (suc m) r.payload h).1 cs)
                    (sym c') one)))
      ]

  pub stage-Served :
      (s : Server W) (i : ℕ) (req : Request)
      → Agrees rs s
      → get_elem? rs i ≡ some req
      → let (s', out) = stage s req in
        Served rs s.app s.committed_upto s.world s.app_calls out s'.world s'.app_calls
  unfolding stage
  stage-Served s i req v here =
      let ready : Server W = record s { pending_reqs = insert req.seq req s.pending_reqs } in
      commit_loop-Served (suc (length (insert req.seq req s.pending_reqs))) ready []
        s.committed_upto s.app s.world s.app_calls (insert-pending_reqs-Agrees conv s i req v here)
        refl (omega arith) (refl, refl)

  pub on_request-Served :
      (s : Server W) (i : ℕ) (req : Request)
      → Agrees rs s
      → get_elem? rs i ≡ some req
      → needs_recover s req ≡ false
      → s.committed_upto < req.seq
      → let (s', out) = on_request s req in
        Served rs s.app s.committed_upto s.world s.app_calls out s'.world s'.app_calls
  unfolding on_request release_acked track_bounds
  on_request-Served s i req v here accepted fresh =
      let later : leb req.seq s.committed_upto ≡ false = ground arith in
      rw (accepted, on_request)
        (rw later
          (stage-Served (release_acked s req) i req (release_acked-Agrees conv s req v) here))
