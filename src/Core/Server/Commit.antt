-- ===== src/Core/Server/Commit.antt =====
-- color_server.cc, `on_request`: a round of the commit loop in a conversation.
use color.Prelude.{
  ℕ, suc, ◌≤◌, ◌≡◌, refl, ap, sym, ◌∙◌, ◌⊎◌, inl, inr, Bool, false, none, some, List, arith, length,
  get_elem?, get_elem?-lt, inc64-eq, inc64, ==_self, Option-cases, Bool-cases, subst,
}
use color.Text.{Bytes}
use color.Dict.{lookup, insert, contains}
use color.Dict.Laws.{found-erase, found-insert, lookup-insert_self, kept-insert}
use color.Core.Message.{Seq, Hash, Request}
use color.Core.History.{Event}
use color.Core.History.Prefix.{IsHistoryOf}
use color.Core.Transcript.{upto, hash_upto, upto-suc, append_block-IsHistoryOf}
use color.Core.Server.{
  Server, commit, write_request, process, count_call, check_hash, make_response,
}
use color.Core.Server.Agreement.{IsConversation, AgreesAt, Agrees, Answers}

module _ {W : Type 0} where
  pub check_hash-quiet :
      (s : Server W) (r : Request) (h : Hash)
      → (r.hash ≡ none) ⊎ (r.hash ≡ some h)
      → check_hash s r h ≡ s
  unfolding check_hash
  check_hash-quiet s r h (inl e) = rw (e, check_hash)
  check_hash-quiet s r h (inr e) = rw (e, check_hash) (rw ==_self (ground arith))

pub lookup-count_call_fresh :
    (seq k : Seq) (calls : List (Seq × ℕ))
    → lookup seq calls ≡ none
    → lookup k (count_call seq calls) ≡ lookup k (insert seq 1 calls)
unfolding count_call
lookup-count_call_fresh seq k calls h = rw h

module _ {W : Type 0} {rs : List Request} (conv : IsConversation rs) where
  pub make_response-Answers :
      (s : Server W) (es : List Event) (seq : Seq) (payload : Bytes) (no_op : Bool)
      → AgreesAt rs s es
      → 1 ≤ seq
      → seq ≤ length rs
      → Answers rs (make_response s seq payload no_op)
  unfolding make_response
  make_response-Answers s es seq payload no_op v one low = record {
    positive = one;
    issued = low;
    stamp = λ h e. ground (arith, v.stamped seq h);
  }

  -- The request that is found is the next of the conversation.
  pub next_request :
      (s : Server W) (es : List Event) (r : Request)
      → AgreesAt rs s es
      → lookup (inc64 s.committed_upto) s.pending_reqs ≡ some r
      → (get_elem? rs s.committed_upto ≡ some r) × (r.seq ≡ suc s.committed_upto)
  next_request s es r v found =
      let (i, k, e) = v.staged _ r found in
      let behind = v.behind in
      let short = conv.short in
      let same : i ≡ s.committed_upto = omega (arith, inc64-eq s.committed_upto) in
      let here : get_elem? rs s.committed_upto ≡ some r =
        subst (λ j. get_elem? rs j ≡ some r) same e in
      (here, conv.numbered _ r here)

  write_request-AgreesAt :
      (s : Server W) (r : Request)
      → Agrees rs s
      → lookup (inc64 s.committed_upto) s.pending_reqs ≡ some r
      → let (s', h) = write_request s r in
        IsHistoryOf s'.history (upto rs (suc s.committed_upto))
        × (h ≡ hash_upto rs (suc s.committed_upto))
  unfolding write_request hash_upto
  write_request-AgreesAt s r v found =
      let (here, numbered) = next_request s _ r v found in
      rw (upto-suc rs s.committed_upto here)
        (append_block-IsHistoryOf s.history _ r.ack_new r.seq v.history)

  -- The request that `process` takes is the next of the conversation, and it was just written.
  process-AgreesAt :
      (s : Server W) (r : Request)
      → Agrees rs s
      → lookup (inc64 s.committed_upto) s.pending_reqs ≡ some r
      → AgreesAt rs (process (write_request s r).0 r).0 (upto rs (suc s.committed_upto))
  unfolding process write_request
  process-AgreesAt s r v found = record {
    behind = omega (arith, numbered, get_elem?-lt rs s.committed_upto here);
    history = (write_request-AgreesAt s r v found).0;
    staged = λ k q e. v.staged k q (found-erase _ k _ e).1;
    stamped = λ k h e. elim (found-insert r.seq k _ s.req_hash e) [
      | inl (same, hash) ↦
          (omega arith, sym hash ∙ written ∙ ap (hash_upto rs) (sym numbered ∙ same))
      | inr (other, old) ↦ (omega (arith, numbered, v.stamped k h old), (v.stamped k h old).1)
    ];
    buffered = λ k p e. elim (found-insert r.seq k _ s.resp_buffer e) [
      | inl (same, _) ↦ (
        _,
        ap (λ j. lookup j (insert r.seq (write_request s r).1 s.req_hash)) (sym same)
            ∙ lookup-insert_self r.seq _ s.req_hash,
      )
      | inr (other, old) ↦ kept-insert r.seq k _ s.req_hash (v.buffered k p old).1
    ];
    once = λ k n e. elim (found-insert r.seq k 1 s.app_calls (sym (count_fresh k) ∙ e)) [
      | inl (same, one) ↦
          (sym one, omega arith, ap (λ j. contains j s.awaiting) (sym same) ∙ unowed)
      | inr (other, old) ↦
          let (one, low, done) = v.once k n old in (one, omega (arith, numbered), done)
    ];
    owed = λ k e.
        let (low, h, known) = v.owed k e in
        let (h', kept) = kept-insert r.seq k (write_request s r).1 s.req_hash known in
        (omega (arith, numbered), h', kept);
    quiet = v.quiet;
  }
    where
      written : (write_request s r).1 ≡ hash_upto rs (suc s.committed_upto)
      written = (write_request-AgreesAt s r v found).1

      here : get_elem? rs s.committed_upto ≡ some r
      here = (next_request s _ r v found).0

      numbered : r.seq ≡ suc s.committed_upto
      numbered = (next_request s _ r v found).1

      uncalled : lookup r.seq s.app_calls ≡ none
      uncalled = elim (Option-cases (lookup r.seq s.app_calls)) [
        | inl e ↦ e
        | inr (n, e) ↦ absurd (omega (arith, numbered, (v.once r.seq n e).1))
      ]

      unowed : contains r.seq s.awaiting ≡ false
      unowed = elim (Bool-cases (contains r.seq s.awaiting)) [
        | inl e ↦ absurd (omega (arith, numbered, (v.owed r.seq e).0))
        | inr e ↦ e
      ]

      count_fresh :
          (k : Seq)
          → lookup k (count_call r.seq s.app_calls) ≡ lookup k (insert r.seq 1 s.app_calls)
      count_fresh k = lookup-count_call_fresh r.seq k s.app_calls uncalled

  process-committed : (s : Server W) (r : Request) → (process s r).0.committed_upto ≡ r.seq
  unfolding process
  process-committed s r = refl

  process-Answers :
      (s : Server W) (r : Request) (es : List Event)
      → AgreesAt rs (process s r).0 es
      → 1 ≤ r.seq
      → r.seq ≤ length rs
      → Answers rs (process s r).1
  unfolding process
  process-Answers s r es = make_response-Answers _ es r.seq _ false

  pub commit-Agrees :
      (s : Server W) (r : Request)
      → Agrees rs s
      → lookup (inc64 s.committed_upto) s.pending_reqs ≡ some r
      → Agrees rs (commit s r).0
        × Answers rs (commit s r).1
        × ((commit s r).0.committed_upto ≡ suc s.committed_upto)
  unfolding commit
  commit-Agrees s r v found =
      let (here, numbered) = next_request s _ r v found in
      let hash = (write_request-AgreesAt s r v found).1 in
      let stamp : (r.hash ≡ none) ⊎ (r.hash ≡ some (write_request s r).1) =
        rw hash (conv.stamps _ r here) in
      let quiet = check_hash-quiet (write_request s r).0 r (write_request s r).1 stamp in
      let after = process-AgreesAt s r v found in
      let committed = process-committed (write_request s r).0 r ∙ numbered in
      rw quiet (
        subst (λ k. AgreesAt rs (process (write_request s r).0 r).0 (upto rs k)) (sym committed)
            after,
        process-Answers (write_request s r).0 r _ after (omega (arith, numbered))
            (omega (arith, numbered, get_elem?-lt rs s.committed_upto here)),
        committed,
      )
