-- ===== src/Core/Client/Receiving.antt =====
-- color_client.cc, `on_response`: a response of the conversation.
use color.Prelude.{
  suc, ◌≤◌, ◌<◌, ◌≡◌, sym, ◌∙◌, inl, inr, Bool, true, false, List, [], ◌∷◌, ◌++◌, arith, length,
  ==_self, if◌then◌else◌, ltb, ltb→lt, Option-cases, Bool-cases, All, All-append, All-mono,
}
use color.Dict.{lookup, contains, add}
use color.Dict.Laws.{found-erase, contained-add, contains-add}
use color.Core.Message.{Seq, Request, Response}
use color.Core.Server.Agreement.{IsConversation, Answers}
use color.Core.Client.Base.{advance_base-received}
use color.Core.Client.{Client, advance_base, hash_check, on_response}
use color.Core.Client.Invariant.{Follows}

module _ {rs : List Request} (conv : IsConversation rs) (c : Client) (resp : Response) where
  -- A response of the conversation never disagrees with the client's history.
  hash_check-quiet : Answers rs resp → Follows rs c → hash_check c resp ≡ []
  unfolding hash_check
  hash_check-quiet a v = elim (Option-cases resp.hash) [
    | inl e ↦ rw (e, hash_check)
    | inr (got, e) ↦ elim (Option-cases (lookup resp.seq c.req_hash)) [
      | inl e' ↦ rw (e, hash_check) (rw e')
      | inr (expected, e') ↦
          let same : got ≡ expected = a.stamp got e ∙ sym (v.stamped resp.seq expected e').1 in
          rw (e, hash_check) (rw e' (ground (arith, same)))
    ]
  ]

  pub on_response-Follows : Answers rs resp → Follows rs c → Follows rs (on_response c resp).0
  unfolding on_response
  on_response-Follows a v = elim (Bool-cases (contains resp.seq c.received)) [
    | inl again ↦ rw (again, on_response) v
    | inr first ↦
        rw (first, on_response)
          (record {
            numbered = v.numbered;
            history = v.history;
            whole = v.whole;
            stamped = v.stamped;
            frozen = λ k r e. v.frozen k r (found-erase resp.seq k c.inflight e).1;
            known = known;
            started = omega (arith, above, v.started);
            based = λ k one low. elim (Bool-cases (ltb k c.base)) [
              | inl old ↦ kept k (v.based k one (ltb→lt k c.base old))
              | inr new ↦ all k (ground arith) low
            ];
            acked = acked resp.no_op;
            quiet = rw (v.quiet, hash_check-quiet a v);
          })
  ]
    where
      received : List Seq
      received = add resp.seq c.received

      kept : (k : Seq) → contains k c.received ≡ true → contains k received ≡ true
      kept k h = ground (arith, contains-add resp.seq k c.received)

      known : (k : Seq) → contains k received ≡ true → (1 ≤ k) × (k ≤ length rs)
      known k e = elim (contained-add resp.seq k c.received e) [
        | inl same ↦ (omega (arith, a.positive), omega (arith, a.issued))
        | inr old ↦ v.known k old
      ]

      advanced :
          let b = advance_base (suc (length received)) received c.base in
          (c.base ≤ b)
          × (contains b received ≡ false)
          × ((k : Seq) → c.base ≤ k → k < b → contains k received ≡ true)
      advanced =
          advance_base-received received c.base (λ k e. omega (arith, (known k e).1, conv.short))

      above : c.base ≤ advance_base (suc (length received)) received c.base
      above = advanced.0

      acked :
          (no_op : Bool)
          → All
              (λ k. contains k received ≡ true)
              (if no_op then c.pending_new else c.pending_new ++ resp.seq ∷ [])
      acked true = All-mono c.pending_new kept v.acked
      acked false =
          All-append (λ k. contains k received ≡ true) c.pending_new (resp.seq ∷ [])
            (All-mono c.pending_new kept v.acked)
            (contains-add resp.seq resp.seq c.received ∙ rw (==_self resp.seq), tt)

      all :
          (k : Seq)
          → c.base ≤ k
          → k < advance_base (suc (length received)) received c.base
          → contains k received ≡ true
      all = advanced.2
