-- ===== src/Core/Client/Sending.antt =====
-- color_client.cc, `generate_request`: the conversation that grows by a request.
use color.Prelude.{
  ◌+◌, ◌<◌, ◌≡◌, refl, ap, sym, ◌∙◌, ◌⊎◌, inl, inr, Bool, true, false, Option, none, some, List, [],
  ◌∷◌, ◌++◌, arith, length, get_elem?-last, get_elem?-append, u64_mod, inc64-eq, if◌then◌else◌,
  subst, All-mono, length-append,
}
use color.Text.{Bytes}
use color.Dict.Laws.{found-insert}
use color.Core.Message.{Hash, Request}
use color.Core.History.{append, append_responses}
use color.Core.History.Prefix.{IsHistoryOf, history_hash, request_event, append_responses-base}
use color.Core.Transcript.{
  hash_upto-whole, transcript-grown, transcript, hash_upto, hash_upto-append,
  append_block-IsHistoryOf,
}
use color.Core.Server.Agreement.{IsConversation}
use color.Core.Server.Growth.{grown-IsConversation}
use color.Core.Client.{Client, generate_request}
use color.Core.Client.Invariant.{Follows, Follows-base_bound}

stamp_cases :
    (set_hash : Bool) {h k : Hash}
    → h ≡ k
    → let stamp : Option Hash = if set_hash then some h else none in
      (stamp ≡ none) ⊎ (stamp ≡ some k)
stamp_cases true e = inr (ap some e)
stamp_cases false e = inl refl

module _ (rs : List Request) (c : Client) (p : Bytes) where
  abbrev after : Client
  after = (generate_request c p).0

  abbrev request : Request
  request = (generate_request c p).1

  generate_request-history :
      Follows rs c
      → IsHistoryOf after.history (transcript (rs ++ request ∷ []))
        × ((append (append_responses c.history c.pending_new) (request_event c.next_seq)).1
            ≡ history_hash (transcript (rs ++ request ∷ [])))
        × ((request.hash ≡ none)
            ⊎ (request.hash ≡ some (history_hash (transcript (rs ++ request ∷ [])))))
  unfolding generate_request
  generate_request-history v =
      let (history, hash) =
        append_block-IsHistoryOf c.history (transcript rs) c.pending_new c.next_seq v.history in
      let whole = sym (transcript-grown rs request) in
      let stamp = hash ∙ ap history_hash whole in
      (subst (IsHistoryOf _) whole history, stamp, stamp_cases c.set_hash stamp)

  -- The next request continues the conversation, and the client follows it.
  pub generate_request-Follows :
      IsConversation rs
      → Follows rs c
      → length rs + 2 < u64_mod
      → length (transcript (rs ++ (generate_request c p).1 ∷ [])) < u64_mod
      → IsConversation (rs ++ (generate_request c p).1 ∷ [])
        × Follows (rs ++ (generate_request c p).1 ∷ []) (generate_request c p).0
  unfolding generate_request append
  generate_request-Follows conv v short counted = (
    grown-IsConversation rs request conv v.numbered stamp
        (
          v.started,
          Follows-base_bound rs c v,
          All-mono c.pending_new (λ k e. (v.known k e).1) v.acked,
        )
        short counted,
    record {
      numbered =
          inc64-eq c.next_seq (omega (arith, v.numbered))
          ∙ omega (arith, v.numbered, length-append rs (request ∷ []));
      history = history;
      whole = append_responses-base c.history c.pending_new ∙ v.whole;
      stamped = λ k h e. elim (found-insert c.next_seq k _ c.req_hash e) [
        | inl (same, hash) ↦
            let last : length (rs ++ request ∷ []) ≡ k =
              omega (arith, v.numbered, length-append rs (request ∷ []), same) in
            (
              omega (arith, last),
              sym hash
                  ∙ (generate_request-history v).1
                  ∙ sym (hash_upto-whole (rs ++ request ∷ []))
                  ∙ ap (hash_upto (rs ++ request ∷ [])) last,
            )
        | inr (_, old) ↦
            let (low, hash) = v.stamped k h old in
            (
              omega (arith, length-append rs (request ∷ [])),
              hash ∙ sym (hash_upto-append rs (request ∷ []) k low),
            )
      ];
      frozen = λ k r e. elim (found-insert c.next_seq k request c.inflight e) [
        | inl (same, is_request) ↦
            (length rs, sym same ∙ v.numbered, get_elem?-last rs request ∙ ap some is_request)
        | inr (_, old) ↦
            let (i, numbered, here) = v.frozen k r old in
            (i, numbered, get_elem?-append rs (request ∷ []) i here)
      ];
      known = λ k e.
          let (one, low) = v.known k e in (one, omega (arith, length-append rs (request ∷ [])));
      started = v.started;
      based = v.based;
      acked = tt;
      quiet = v.quiet;
    },
  )
    where
      history : IsHistoryOf after.history (transcript (rs ++ request ∷ []))
      history = (generate_request-history v).0

      stamp :
          (request.hash ≡ none)
          ⊎ (request.hash ≡ some (history_hash (transcript (rs ++ request ∷ []))))
      stamp = (generate_request-history v).2
