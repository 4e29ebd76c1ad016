-- ===== src/Core/Server/Unbroken.antt =====
-- color_server.cc: a server process that has served its conversation from the first request on.
use color.Prelude.{
  ℕ, zero, suc, ◌+◌, ◌≤◌, ◌≡◌, refl, ap, sym, ◌∙◌, inl, inr, true, false, none, some, List, [], ◌∷◌,
  leb, arith, All, All-mono, Bool-cases, Option-cases, inc64, length, get_elem?, subst, not_leb→lt,
  leb→le,
}
use color.Dict.{lookup, insert, contains}
use color.Dict.Laws.{length-insert_new}
use color.Core.Message.{Seq, Request, Response, Hash}
use color.Core.History.{append}
use color.Core.History.Prefix.{append_responses-base}
use color.Core.Server.{
  Server, make_response, write_request, count_call, check_hash, process, commit, commit_loop,
  answer_committed, stage, release_acked, track_bounds, needs_recover, on_request,
}
use color.Core.Server.Agreement.{IsConversation, Agrees}
use color.Core.Server.Commit.{commit-Agrees, next_request}
use color.Core.Server.Staging.{insert-pending_reqs-Agrees, release_acked-Agrees}
use color.Core.Server.Ordering.{InOrder, on_request-InOrder}

-- It holds the whole history, owes nothing, and has called the application for each committed id.
pub record IsUnbroken {W : Type 0} (s : Server W) : Type 0 where
  pub whole : s.history.base_count ≡ 0
  pub unowed : s.awaiting ≡ []
  pub sized : length s.app_calls ≡ s.committed_upto

length-count_call :
    (seq : Seq) (calls : List (Seq × ℕ))
    → lookup seq calls ≡ none
    → length (count_call seq calls) ≡ length calls + 1
unfolding count_call
length-count_call seq calls h = length-insert_new seq _ calls h

module _ {W : Type 0} where
  check_hash-IsUnbroken :
      (s : Server W) (r : Request) (h : Hash)
      → ((check_hash s r h).app_calls ≡ s.app_calls)
        × ((check_hash s r h).awaiting ≡ s.awaiting)
        × ((check_hash s r h).history ≡ s.history)
  unfolding check_hash
  check_hash-IsUnbroken s r h = ground arith

  commit-IsUnbroken :
      (s : Server W) (r : Request)
      → lookup r.seq s.app_calls ≡ none
      → r.seq ≡ suc s.committed_upto
      → IsUnbroken s
      → IsUnbroken (commit s r).0
  unfolding commit process write_request append
  commit-IsUnbroken s r fresh numbered v =
      let (calls, owed, history) =
        check_hash-IsUnbroken (write_request s r).0 r (write_request s r).1 in
      record {
        whole =
            ap (λ h. h.base_count) history ∙ append_responses-base s.history r.ack_new ∙ v.whole;
        unowed = owed ∙ v.unowed;
        sized =
            ap (λ cs. length (count_call r.seq cs)) calls
            ∙ length-count_call r.seq s.app_calls fresh
            ∙ omega (arith, v.sized);
      }

  module _ {rs : List Request} (conv : IsConversation rs) where
    commit_loop-IsUnbroken :
        (fuel : ℕ) (s : Server W) (out : List Response)
        → Agrees rs s
        → IsUnbroken s
        → IsUnbroken (commit_loop fuel s out).0
    unfolding commit_loop
    commit_loop-IsUnbroken zero s out a v = v
    commit_loop-IsUnbroken (suc fuel) s out a v =
        elim (Option-cases (lookup (inc64 s.committed_upto) s.pending_reqs)) [
          | inl e ↦ rw (e, commit_loop) v
          | inr (r, e) ↦
              let (_, numbered) = next_request conv s _ r a e in
              let fresh : lookup r.seq s.app_calls ≡ none =
                elim (Option-cases (lookup r.seq s.app_calls)) [
                  | inl none_yet ↦ none_yet
                  | inr (n, called) ↦ absurd (omega (arith, numbered, (a.once r.seq n called).1))
                ] in
              rw (e, commit_loop)
                (commit_loop-IsUnbroken fuel _ _ (commit-Agrees conv s r a e).0
                  (commit-IsUnbroken s r fresh numbered v))
        ]

    stage-IsUnbroken :
        (s : Server W) (i : ℕ) (req : Request)
        → Agrees rs s
        → get_elem? rs i ≡ some req
        → IsUnbroken s
        → IsUnbroken (stage s req).0
    unfolding stage
    stage-IsUnbroken s i req a here v =
        let pending = insert req.seq req s.pending_reqs in
        commit_loop-IsUnbroken (suc (length pending)) (record s { pending_reqs = pending }) []
          (insert-pending_reqs-Agrees conv s i req a here)
          (record { whole = v.whole; unowed = v.unowed; sized = v.sized })

  -- A committed request changes nothing, and its answer is for its id.
  answer_committed-IsUnbroken :
      (s : Server W) (req : Request)
      → IsUnbroken s
      → ((answer_committed s req).0 ≡ s)
        × All (λ resp. resp.seq ≡ req.seq) (answer_committed s req).1
  unfolding answer_committed make_response contains
  answer_committed-IsUnbroken s req v = elim (Option-cases (lookup req.seq s.resp_buffer)) [
    | inr (payload, e) ↦ rw (e, answer_committed) (refl, (refl, tt))
    | inl e ↦
        let unowed : contains req.seq s.awaiting ≡ false = ap (contains req.seq) v.unowed in
        rw (e, answer_committed) (rw unowed (refl, (refl, tt)))
  ]

InOrder-le :
    (n top : ℕ) (out : List Response)
    → InOrder n out
    → n + length out ≤ top
    → All (λ resp. resp.seq ≤ top) out
InOrder-le n top [] v h = tt
InOrder-le n top (resp ∷ out) v h =
    let (seq, _, _, later) = v in
    (omega (arith, seq), InOrder-le (suc n) top out later (omega arith))

module _ {W : Type 0} where
  track_bounds-IsUnbroken : (s : Server W) → IsUnbroken s → IsUnbroken (track_bounds s)
  unfolding track_bounds
  track_bounds-IsUnbroken s v = record { whole = v.whole; unowed = v.unowed; sized = v.sized }

  release_acked-IsUnbroken :
      (s : Server W) (req : Request) → IsUnbroken s → IsUnbroken (release_acked s req)
  unfolding release_acked
  release_acked-IsUnbroken s req v = record { whole = v.whole; unowed = v.unowed; sized = v.sized }

  -- What a request leaves of such a server, with what it answers.
  abbrev pub StaysUnbroken : Server W → Server W × List Response → Type 0
  StaysUnbroken s (s', out) =
      IsUnbroken s'
      × (s.committed_upto ≤ s'.committed_upto)
      × All (λ resp. resp.seq ≤ s'.committed_upto) out

  resent-StaysUnbroken :
      (s : Server W) (req : Request)
      → leb req.seq s.committed_upto ≡ true
      → IsUnbroken s
      → let r = answer_committed (release_acked s req) req in
        StaysUnbroken s (track_bounds r.0, r.1)
  unfolding release_acked track_bounds
  resent-StaysUnbroken s req old v =
      let released = release_acked s req in
      let (same, seqs) =
        answer_committed-IsUnbroken released req (release_acked-IsUnbroken s req v) in
      let kept : (answer_committed released req).0.committed_upto ≡ s.committed_upto =
        ap (λ (s' : Server W). s'.committed_upto) same in
      (
        track_bounds-IsUnbroken (answer_committed released req).0
            (subst IsUnbroken (sym same) (release_acked-IsUnbroken s req v)),
        omega (arith, kept),
        All-mono (answer_committed released req).1
            (λ resp e. omega (arith, e, kept, leb→le req.seq s.committed_upto old)) seqs,
      )

module _ {W : Type 0} {rs : List Request} (conv : IsConversation rs) where
  staged-IsUnbroken :
      (s : Server W) (i : ℕ) (req : Request)
      → Agrees rs s
      → get_elem? rs i ≡ some req
      → needs_recover s req ≡ false
      → leb req.seq s.committed_upto ≡ false
      → IsUnbroken s
      → IsUnbroken (on_request s req).0
  unfolding on_request
  staged-IsUnbroken s i req a here fine fresh v =
      let later : leb req.seq (release_acked s req).committed_upto ≡ false =
        unfold release_acked in fresh in
      rw (fine, on_request)
        (rw later (
          track_bounds-IsUnbroken (stage (release_acked s req) req).0 (
            stage-IsUnbroken conv (release_acked s req) i req (release_acked-Agrees conv s req a)
              here (release_acked-IsUnbroken s req v))))

  -- A request that is not refused leaves such a server one; it never uncommits, and what it answers
  -- is committed.
  pub on_request-StaysUnbroken :
      (s : Server W) (i : ℕ) (req : Request)
      → Agrees rs s
      → get_elem? rs i ≡ some req
      → needs_recover s req ≡ false
      → IsUnbroken s
      → StaysUnbroken s (on_request s req)
  unfolding on_request
  on_request-StaysUnbroken s i req a here fine v =
      elim (Bool-cases (leb req.seq s.committed_upto)) [
        | inl old ↦
            let again : leb req.seq (release_acked s req).committed_upto ≡ true =
              unfold release_acked in old in
            rw (fine, on_request) (rw again (resent-StaysUnbroken s req old v))
        | inr fresh ↦
            let (ordered, total, _) =
              on_request-InOrder conv s i req a here fine
                (not_leb→lt req.seq s.committed_upto fresh) in
            (
              staged-IsUnbroken s i req a here fine fresh v,
              omega (arith, total),
              InOrder-le s.committed_upto _ _ ordered (omega (arith, total)),
            )
      ]
