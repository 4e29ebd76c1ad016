-- ===== src/Core/Server/Given.antt =====
-- color_server.cc, `on_request`: what the application is called with, on each branch.
use mathlib.Core.Bool.{false≢true}
use color.Prelude.{
  ℕ, suc, ◌≡◌, refl, sym, ◌∙◌, inl, inr, none, some, List, [], ◌∷◌, get_elem?, Option-cases,
  Bool-cases, leb,
}
use color.Dict.{lookup, insert, contains}
use color.Core.Message.{Seq, Request, Response}
use color.Core.History.{History}
use color.Core.Server.{
  App, Server, stage, release_acked, track_bounds, needs_recover, on_request, reprocess,
  answer_committed,
}
use color.Core.Server.Agreement.{IsConversation, Agrees}
use color.Core.Server.Staging.{release_acked-Agrees}
use color.Core.Server.Served.{Served}
use color.Core.Server.Serving.{count_call-new, stage-Served}

-- The application is called once for each of `ks`, in this order, with the request of this number;
-- it had not been called for it before.
abbrev pub Gives :
    {W : Type 0}
    → List Request
    → App W
    → W
    → List (Seq × ℕ)
    → List Seq
    → W
    → List (Seq × ℕ)
    → Type 0
Gives rs app w calls [] w' calls' = (w ≡ w') × (calls ≡ calls')
Gives rs app w calls (k ∷ ks) w' calls' =
    (i : ℕ) × (r : Request) × (h : History) × (k ≡ suc i)
    × (get_elem? rs i ≡ some r)
    × (lookup k calls ≡ none)
    × Gives rs app (app w k r.payload h).1 (insert k 1 calls) ks w' calls'

module _ {W : Type 0} (rs : List Request) (app : App W) where
  Served-Gives :
      (n : ℕ) (w : W) (calls : List (Seq × ℕ)) (out : List Response) {w' : W}
      {calls' : List (Seq × ℕ)}
      → Served rs app n w calls out w' calls'
      → (ks : List Seq) × Gives rs app w calls ks w' calls'
  Served-Gives n w calls [] v = ([], v)
  Served-Gives n w calls (resp ∷ out) (r, h, here, _, _, _, fresh, rest) =
      let (ks, later) = Served-Gives (suc n) _ _ out rest in
      (suc n ∷ ks, (n, r, h, refl, here, fresh, later))

module _ {W : Type 0} {rs : List Request} (conv : IsConversation rs) where
  -- What an answer to a committed request does with the application: it is called once if the
  -- response is owed, and not at all otherwise.
  answer_committed-Gives :
      (s : Server W) (i : ℕ) (req : Request)
      → Agrees rs s
      → get_elem? rs i ≡ some req
      → let s' = (answer_committed s req).0 in
        (ks : List Seq) × Gives rs s.app s.world s.app_calls ks s'.world s'.app_calls
  unfolding answer_committed reprocess
  answer_committed-Gives s i req v here = elim (Option-cases (lookup req.seq s.resp_buffer)) [
    | inr (payload, e) ↦ rw (e, answer_committed) ([], (refl, refl))
    | inl e ↦ elim (Bool-cases (contains req.seq s.awaiting)) [
      | inl owed ↦
          let fresh : lookup req.seq s.app_calls ≡ none =
            elim (Option-cases (lookup req.seq s.app_calls)) [
              | inl free ↦ free
              | inr (n, known) ↦ absurd (false≢true (sym (v.once req.seq n known).2 ∙ owed))
            ] in
          let count_new = sym (count_call-new req.seq s.app_calls fresh) in
          rw (e, answer_committed)
            (rw owed (
              req.seq ∷ [],
              (i, req, s.history, conv.numbered i req here, here, fresh, (refl, count_new)),
            ))
      | inr done ↦ rw (e, answer_committed) (rw done ([], (refl, refl)))
    ]
  ]

  pub on_request-Gives :
      (s : Server W) (i : ℕ) (req : Request)
      → Agrees rs s
      → get_elem? rs i ≡ some req
      → let s' = (on_request s req).0 in
        (ks : List Seq) × Gives rs s.app s.world s.app_calls ks s'.world s'.app_calls
  unfolding on_request release_acked track_bounds
  on_request-Gives s i req v here = elim (Bool-cases (needs_recover s req)) [
    | inl lost ↦ rw (lost, on_request) ([], (refl, refl))
    | inr fine ↦
        let released = release_acked-Agrees conv s req v in
        elim (Bool-cases (leb req.seq s.committed_upto)) [
          | inl old ↦
              rw (fine, on_request)
                (rw old (answer_committed-Gives (release_acked s req) i req released here))
          | inr fresh ↦
              rw (fine, on_request)
                (rw fresh (
                  Served-Gives rs s.app _ _ _ (stage (release_acked s req) req).1
                    (stage-Served conv (release_acked s req) i req released here)))
        ]
  ]
