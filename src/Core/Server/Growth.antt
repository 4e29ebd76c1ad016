-- ===== src/Core/Server/Growth.antt =====
-- The conversation that grows by a request, seen from server, checkpoints, responses and replays.
use color.Prelude.{
  ℕ, suc, ◌+◌, ◌≤◌, ◌<◌, ◌≡◌, ap, sym, ◌∙◌, ◌⊎◌, inl, inr, none, some, List, [], ◌∷◌, ◌++◌, arith,
  length, get_elem?-lt, get_elem?-append, get_elem?-append_inv, u64_mod, subst, All, All-mono,
  length-append, take, take-length, drop,
}
use color.Core.Message.{Request, Response}
use color.Core.History.{Event}
use color.Core.History.Prefix.{history_hash}
use color.Core.Transcript.{transcript, upto, hash_upto, upto-append, hash_upto-append}
use color.Core.Checkpoint.{Checkpoint, Replay}
use color.Core.Server.{Server}
use color.Core.Server.Agreement.{IsConversation, AgreesAt, Agrees, Answers}
use color.Core.Server.Failover.{IsCheckpointOf}
use color.Core.Server.Recovery.{IsReplayUpto}

module _ (rs : List Request) (r : Request) where
  abbrev grown : List Request
  grown = rs ++ r ∷ []

  length-grown : length grown ≡ suc (length rs)
  length-grown = omega (arith, length-append rs (r ∷ []))

  pub grown-IsConversation :
      IsConversation rs
      → r.seq ≡ suc (length rs)
      → (r.hash ≡ none) ⊎ (r.hash ≡ some (history_hash (transcript grown)))
      → (1 ≤ r.ack_base) × (r.ack_base ≤ suc (length rs)) × All (λ k. k ≤ length rs) r.ack_new
      → length rs + 2 < u64_mod
      → length (transcript grown) < u64_mod
      → IsConversation grown
  unfolding hash_upto upto
  grown-IsConversation conv numbered stamp acked short counted = record {
    numbered = λ i q e. elim (get_elem?-append_inv rs r i e) [
      | inl old ↦ conv.numbered i q old
      | inr (last, same) ↦ ap (λ (p : Request). p.seq) (sym same) ∙ numbered ∙ ap suc (sym last)
    ];
    stamps = λ i q e. elim (get_elem?-append_inv rs r i e) [
      | inl old ↦
          rw (hash_upto-append rs (r ∷ []) (suc i) (get_elem?-lt rs i old)) (conv.stamps i q old)
      | inr (last, same) ↦
          subst (λ (p : Request). (p.hash ≡ none) ⊎ (p.hash ≡ some (hash_upto grown (suc i)))) same
            (rw (whole i last) stamp)
    ];
    acks = λ i q e. elim (get_elem?-append_inv rs r i e) [
      | inl old ↦ conv.acks i q old
      | inr (last, same) ↦
          subst
            (λ (p : Request). (1 ≤ p.ack_base) × (p.ack_base ≤ suc i) × All (λ k. k ≤ i) p.ack_new)
            same (rw last acked)
    ];
    short = omega (arith, length-grown);
    counted = counted;
  }
    where
      whole : (i : ℕ) → i ≡ length rs → hash_upto grown (suc i) ≡ history_hash (transcript grown)
      whole i last =
          ap (λ n. history_hash (transcript (take n grown))) (ap suc last ∙ sym length-grown)
          ∙ ap (λ qs. history_hash (transcript qs)) (take-length grown)

  grown-AgreesAt :
      {W : Type 0} (s : Server W) (es : List Event) → AgreesAt rs s es → AgreesAt grown s es
  grown-AgreesAt s es v = record {
    behind = omega (arith, length-grown, v.behind);
    history = v.history;
    staged = λ k q e.
        let (i, same, here) = v.staged k q e in (i, same, get_elem?-append rs (r ∷ []) i here);
    stamped = λ k h e.
        let (low, hash) = v.stamped k h e in
        (low, hash ∙ sym (hash_upto-append rs (r ∷ []) k (omega (arith, v.behind))));
    buffered = v.buffered;
    once = v.once;
    owed = v.owed;
    quiet = v.quiet;
  }

  pub grown-Agrees : {W : Type 0} (s : Server W) → Agrees rs s → Agrees grown s
  grown-Agrees s v =
      subst (AgreesAt grown s) (sym (upto-append rs (r ∷ []) s.committed_upto v.behind))
        (grown-AgreesAt s _ v)

  pub grown-Answers : (resp : Response) → Answers rs resp → Answers grown resp
  grown-Answers resp a = record {
    positive = a.positive;
    issued = omega (arith, length-grown, a.issued);
    stamp = λ h e. a.stamp h e ∙ sym (hash_upto-append rs (r ∷ []) resp.seq a.issued);
  }

  pub grown-IsCheckpointOf : (cp : Checkpoint) → IsCheckpointOf rs cp → IsCheckpointOf grown cp
  grown-IsCheckpointOf cp v = record {
    behind = omega (arith, length-grown, v.behind);
    counted = v.counted ∙ ap length (sym (upto-append rs (r ∷ []) cp.committed_upto v.behind));
    hashed = v.hashed ∙ sym (hash_upto-append rs (r ∷ []) cp.committed_upto v.behind);
    entries =
        All-mono cp.buffer
          (λ b (low, hash).
            (low, hash ∙ sym (hash_upto-append rs (r ∷ []) b.seq (omega (arith, low, v.behind)))))
          v.entries;
  }

  pub grown-IsReplayUpto :
      (k : ℕ) (rp : Replay) → k ≤ length rs → IsReplayUpto rs k rp → IsReplayUpto grown k rp
  grown-IsReplayUpto k rp low v = v ∙ ap (drop rp.from) (sym (upto-append rs (r ∷ []) k low))
