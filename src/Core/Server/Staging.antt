-- ===== src/Core/Server/Staging.antt =====
-- color_server.cc, `on_request`: the staging area and the commit loop, in a conversation.
use color.Prelude.{
  ℕ, zero, suc, ◌≤◌, ◌<◌, ◌≡◌, ap, sym, ◌∙◌, inl, inr, none, some, List, [], ◌∷◌, arith, length,
  get_elem?, inc64, Option-cases, All, All-append,
}
use color.Dict.{lookup, insert, erase}
use color.Dict.Laws.{found-erase, found-insert, length-erase-lt}
use color.Core.Message.{Seq, Hash, Request, Response}
use color.Core.Server.{
  Server, commit, write_request, process, check_hash, commit_loop, stage, release_acked, drop_below,
  erase_all,
}
use color.Core.Server.Agreement.{IsConversation, Agrees, Answers}
use color.Core.Server.Commit.{commit-Agrees}

found-drop_below :
    {V : Type 0} (base k : ℕ) (m : List (Seq × V)) {v : V}
    → lookup k (drop_below base m) ≡ some v
    → (base ≤ k) × (lookup k m ≡ some v)
unfolding lookup drop_below
found-drop_below base k [] h = cc
found-drop_below base k ((j, w) ∷ m) {v} h = ground (arith, found-drop_below base k m {v = v})

found-erase_all {ℓ} :
    {V : Type ℓ} (acks : List Seq) (k : ℕ) (m : List (Seq × V)) {v : V}
    → lookup k (erase_all acks m) ≡ some v
    → lookup k m ≡ some v
unfolding erase_all
found-erase_all [] k m h = h
found-erase_all (i ∷ acks) k m h = (found-erase i k m (found-erase_all acks k (erase i m) h)).1

check_hash-pending :
    {W : Type 0} (s : Server W) (r : Request) (h : Hash)
    → (check_hash s r h).pending_reqs ≡ s.pending_reqs
unfolding check_hash
check_hash-pending s r h = ground arith

check_hash-committed :
    {W : Type 0} (s : Server W) (r : Request) (h : Hash)
    → (check_hash s r h).committed_upto ≡ s.committed_upto
unfolding check_hash
check_hash-committed s r h = ground arith

commit-pending :
    {W : Type 0} (s : Server W) (r : Request)
    → (commit s r).0.pending_reqs ≡ erase (inc64 s.committed_upto) s.pending_reqs
unfolding commit process write_request
commit-pending s r = check_hash-pending (write_request s r).0 r (write_request s r).1

-- With more fuel than staged requests the commit loop ends by its test.
pub commit_loop-drained :
    {W : Type 0} (fuel : ℕ) (s : Server W) (out : List Response)
    → length s.pending_reqs < fuel
    → let s' = (commit_loop fuel s out).0 in lookup (inc64 s'.committed_upto) s'.pending_reqs ≡ none
unfolding commit_loop
commit_loop-drained zero s out h = absurd (omega arith)
commit_loop-drained (suc fuel) s out h =
    elim (Option-cases (lookup (inc64 s.committed_upto) s.pending_reqs)) [
      | inl e ↦ rw (e, commit_loop) e
      | inr (r, e) ↦
          rw (e, commit_loop)
            (commit_loop-drained fuel (commit s r).0 _ (
              omega (
                arith,
                ap length (commit-pending s r),
                length-erase-lt (inc64 s.committed_upto) s.pending_reqs e,
              )))
    ]

module _ {W : Type 0} {rs : List Request} (conv : IsConversation rs) where
  commit_loop-Agrees :
      (fuel : ℕ) (s : Server W) (out : List Response)
      → Agrees rs s
      → All (Answers rs) out
      → Agrees rs (commit_loop fuel s out).0 × All (Answers rs) (commit_loop fuel s out).1
  unfolding commit_loop
  commit_loop-Agrees zero s out v ok = (v, ok)
  commit_loop-Agrees (suc fuel) s out v ok =
      elim (Option-cases (lookup (inc64 s.committed_upto) s.pending_reqs)) [
        | inl e ↦ rw (e, commit_loop) (v, ok)
        | inr (r, e) ↦
            let (after, answer, _) = commit-Agrees conv s r v e in
            rw (e, commit_loop)
              (commit_loop-Agrees fuel _ _ after (All-append (Answers rs) out _ ok (answer, tt)))
      ]

  pub insert-pending_reqs-Agrees :
      (s : Server W) (i : ℕ) (req : Request)
      → Agrees rs s
      → get_elem? rs i ≡ some req
      → Agrees rs (record s { pending_reqs = insert req.seq req s.pending_reqs })
  insert-pending_reqs-Agrees s i req v here = record {
    behind = v.behind;
    history = v.history;
    staged = λ k r e. elim (found-insert req.seq k req s.pending_reqs e) [
      | inl (same, is_req) ↦ (i, sym same ∙ conv.numbered i req here, here ∙ ap some is_req)
      | inr (_, old) ↦ v.staged k r old
    ];
    stamped = v.stamped;
    buffered = v.buffered;
    once = v.once;
    owed = v.owed;
    quiet = v.quiet;
  }

  pub stage-Agrees :
      (s : Server W) (i : ℕ) (req : Request)
      → Agrees rs s
      → get_elem? rs i ≡ some req
      → Agrees rs (stage s req).0 × All (Answers rs) (stage s req).1
  unfolding stage
  stage-Agrees s i req v here =
      commit_loop-Agrees (suc (length (insert req.seq req s.pending_reqs)))
        (record s { pending_reqs = insert req.seq req s.pending_reqs }) []
        (insert-pending_reqs-Agrees s i req v here) tt

  pub release_acked-Agrees :
      (s : Server W) (req : Request) → Agrees rs s → Agrees rs (release_acked s req)
  unfolding release_acked
  release_acked-Agrees s req v = record {
    behind = v.behind;
    history = v.history;
    staged = v.staged;
    stamped = v.stamped;
    buffered = λ k p e.
        v.buffered k p
          (found-drop_below req.ack_base k s.resp_buffer (found-erase_all req.ack_new k _ e)).1;
    once = v.once;
    owed = v.owed;
    quiet = v.quiet;
  }
