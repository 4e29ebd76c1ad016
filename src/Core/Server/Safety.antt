-- ===== src/Core/Server/Safety.antt =====
-- color_server.cc, `on_request`: all its branches, in a conversation.
use mathlib.Core.Bool.{false≢true}
use color.Prelude.{
  ℕ, ◌≤◌, ◌≡◌, sym, ◌∙◌, inl, inr, true, false, none, some, List, [], arith, length, get_elem?,
  get_elem?-lt, Option-cases, Bool-cases, subst, All, leb,
}
use color.Dict.{lookup, contains}
use color.Dict.Laws.{found-insert, contained-remove, contains-remove}
use color.Core.Message.{Hash, Request}
use color.Core.Server.{
  Server, answer_committed, reprocess, release_acked, track_bounds, needs_recover, on_request,
}
use color.Core.Server.Agreement.{IsConversation, Agrees, Answers}
use color.Core.Server.Commit.{make_response-Answers, lookup-count_call_fresh}
use color.Core.Server.Staging.{stage-Agrees, release_acked-Agrees}

module _ {W : Type 0} {rs : List Request} (conv : IsConversation rs) where
  track_bounds-Agrees : (s : Server W) → Agrees rs s → Agrees rs (track_bounds s)
  unfolding track_bounds
  track_bounds-Agrees s v = record {
    behind = v.behind;
    history = v.history;
    staged = v.staged;
    stamped = v.stamped;
    buffered = v.buffered;
    once = v.once;
    owed = v.owed;
    quiet = v.quiet;
  }

  reprocess-Agrees :
      (s : Server W) (req : Request)
      → Agrees rs s
      → 1 ≤ req.seq
      → req.seq ≤ length rs
      → contains req.seq s.awaiting ≡ true
      → Agrees rs (reprocess s req).0 × Answers rs (reprocess s req).1
  unfolding reprocess
  reprocess-Agrees s req v one low owed =
      (after, make_response-Answers conv _ _ req.seq _ false after one low)
    where
      uncalled : lookup req.seq s.app_calls ≡ none
      uncalled = elim (Option-cases (lookup req.seq s.app_calls)) [
        | inl e ↦ e
        | inr (n, e) ↦ absurd (false≢true (sym (v.once req.seq n e).2 ∙ owed))
      ]

      after : Agrees rs (reprocess s req).0
      after = record {
        behind = v.behind;
        history = v.history;
        staged = v.staged;
        stamped = v.stamped;
        buffered = λ k p e. elim (found-insert req.seq k _ s.resp_buffer e) [
          | inl (same, _) ↦
              subst (λ j. (h : Hash) × (lookup j s.req_hash ≡ some h)) same
                ((v.owed req.seq owed).1, (v.owed req.seq owed).2)
          | inr (_, old) ↦ v.buffered k p old
        ];
        once = λ k n e.
            elim (found-insert req.seq k 1 s.app_calls
              (sym (lookup-count_call_fresh req.seq k s.app_calls uncalled) ∙ e)) [
                | inl (same, one) ↦ (
                  sym one,
                  omega (arith, (v.owed req.seq owed).0),
                  ground (arith, contains-remove req.seq k s.awaiting),
                )
                | inr (other, old) ↦
                    let (once, below, done) = v.once k n old in
                    (once, below, ground (arith, contains-remove req.seq k s.awaiting))
              ];
        owed = λ k e. v.owed k (contained-remove req.seq k s.awaiting e).1;
        quiet = v.quiet;
      }

  answer_committed-Agrees :
      (s : Server W) (req : Request)
      → Agrees rs s
      → 1 ≤ req.seq
      → req.seq ≤ length rs
      → Agrees rs (answer_committed s req).0 × All (Answers rs) (answer_committed s req).1
  unfolding answer_committed
  answer_committed-Agrees s req v one low = elim (Option-cases (lookup req.seq s.resp_buffer)) [
    | inr (payload, e) ↦
        rw (e, answer_committed)
          (v, (make_response-Answers conv s _ req.seq payload false v one low, tt))
    | inl e ↦ elim (Bool-cases (contains req.seq s.awaiting)) [
      | inr gone ↦
          rw (e, answer_committed)
            (rw gone (v, (make_response-Answers conv s _ req.seq [] true v one low, tt)))
      | inl owed ↦
          rw (e, answer_committed)
            (rw owed (
              (reprocess-Agrees s req v one low owed).0,
              ((reprocess-Agrees s req v one low owed).1, tt),
            ))
    ]
  ]

  -- After any request of the conversation the server agrees with it as before, and each response
  -- that it puts out carries the conversation's hash or none.
  pub on_request-Agrees :
      (s : Server W) (i : ℕ) (req : Request)
      → Agrees rs s
      → get_elem? rs i ≡ some req
      → Agrees rs (on_request s req).0 × All (Answers rs) (on_request s req).1
  unfolding on_request
  on_request-Agrees s i req v here = elim (Bool-cases (needs_recover s req)) [
    | inl e ↦
        rw (e, on_request)
          (v, (record { positive = one; issued = low; stamp = λ h none_is. absurd (cc) }, tt))
    | inr e ↦
        let released = release_acked-Agrees conv s req v in
        elim (Bool-cases (leb req.seq (release_acked s req).committed_upto)) [
          | inl old ↦
              let (after, answers) =
                answer_committed-Agrees (release_acked s req) req released one low in
              rw (e, on_request) (rw old (track_bounds-Agrees _ after, answers))
          | inr new ↦
              let (after, answers) = stage-Agrees conv (release_acked s req) i req released here in
              rw (e, on_request) (rw new (track_bounds-Agrees _ after, answers))
        ]
  ]
    where
      one : 1 ≤ req.seq
      one = omega (arith, conv.numbered i req here)

      low : req.seq ≤ length rs
      low = omega (arith, conv.numbered i req here, get_elem?-lt rs i here)
