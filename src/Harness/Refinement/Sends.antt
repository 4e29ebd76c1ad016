-- ===== src/Harness/Refinement/Sends.antt =====
-- fuzz_main.cpp, run_one: arrivals and retransmissions as steps of System.
use color.Prelude.{
  ℕ, zero, suc, ◌+◌, ◌≤◌, ◌≡◌, ap, ◌∙◌, inl, inr, Bool, some, List, [], ◌∷◌, ◌++◌, map, arith,
  length, get_elem?-last, length-append, length-map, All-mono, Bool-cases, Option-cases, ltb,
}
use color.Text.{Bytes}
use color.Core.Message.{Seq, Request}
use color.Core.History.{History, append, append_responses}
use color.Core.History.Prefix.{response_event}
use color.Core.Transcript.{transcript, block, transcript-grown}
use color.Core.Client.{Client, generate_request, frozen}
use color.Core.Client.Invariant.{Follows}
use color.System.{generate, next}
use color.System.Safety.{Reach-IsConsistent}
use color.Harness.Link.{Random}
use color.Harness.Link.Contents.{All-send}
use color.Harness.Driver.{
  Config, Run, send_request, arrive, arrive_loop, send_frozen, resend, resend_loop, generate_part,
}
use color.Harness.Handled.{SentIn, SentIn-append}
use color.Harness.Refinement.{
  harness, Traffic, Implements, IsSmall, Refines, Refines-refl, Refines-trans, Refines-if,
}

length-append_responses :
    (h : History) (acks : List Seq)
    → length (append_responses h acks).events ≡ length h.events + length acks
unfolding append_responses append
length-append_responses h [] = omega arith
length-append_responses h (i ∷ acks) = omega (
  arith,
  length-append_responses (append h (response_event i)).0 acks,
  length-append h.events (response_event i ∷ []),
)

-- A request adds as many events to the client's history as its block has.
generated_events :
    (c : Client) (p : Bytes)
    → length (generate_request c p).0.history.events
      ≡ length c.history.events + length c.pending_new + 1
unfolding generate_request append
generated_events c p = omega (
  arith,
  length-append_responses c.history c.pending_new,
  length-append (append_responses c.history c.pending_new).events (_ ∷ []),
)

length-le-transcript : (rs : List Request) → length rs ≤ length (transcript rs)
unfolding transcript
length-le-transcript [] = omega arith
length-le-transcript (r ∷ rs) = omega (
  arith,
  length-append (map response_event r.ack_new) (_ ∷ []),
  length-append (block r) (transcript rs),
  length-le-transcript rs,
)

Follows-length :
    {rs : List Request} (c : Client)
    → Follows rs c
    → length c.history.events ≡ length (transcript rs)
Follows-length c v = ap length (v.history.retained ∙ rw v.whole)

length-transcript_grown :
    (rs : List Request) (c : Client) (p : Bytes)
    → length (transcript (rs ++ (generate_request c p).1 ∷ []))
      ≡ length (transcript rs) + length c.pending_new + 1
unfolding generate_request
length-transcript_grown rs c p = omega (
  arith,
  ap length (transcript-grown rs (generate_request c p).1),
  length-append (transcript rs) (block (generate_request c p).1),
  length-append (map response_event c.pending_new) (_ ∷ []),
  length-map response_event c.pending_new,
)

-- Generating a request, before it is sent.
generated : {G P : Type 0} → Run G P → Bytes → Run G P
generated run p = record run { client = (generate_request run.client p).0 }

module _ {G P : Type 0} {failing : Bool} (rand : Random G P) where
  send_request-Implements :
      (r : Request) (run : Run G P) {traffic : Traffic}
      → SentIn traffic.requests r
      → Implements failing run traffic
      → Implements failing (send_request rand r run) traffic
  unfolding send_request
  send_request-Implements r run {traffic} sent v = record {
    reach = v.reach;
    flying = All-send (SentIn traffic.requests) rand run.now r sent run.c2s run.rng v.flying;
    returning = v.returning;
    saved = v.saved;
    silent = v.silent;
  }

  -- A draw changes nothing but the generator.
  drawn-Implements :
      (run : Run G P) (rng : G) {traffic : Traffic}
      → Implements failing run traffic
      → Implements failing (record run { rng = rng }) traffic
  drawn-Implements run rng v = record {
    reach = v.reach;
    flying = v.flying;
    returning = v.returning;
    saved = v.saved;
    silent = v.silent;
  }

  generated-Implements :
      (run : Run G P) (p : Bytes) (traffic : Traffic)
      → IsSmall (generated run p)
      → Implements failing run traffic
      → Implements failing
          (generated run p)
          (record traffic { requests = traffic.requests ++ (generate_request run.client p).1 ∷ [] })
  unfolding generated
  generated-Implements run p traffic small v =
      let rs = traffic.requests in
      let r = (generate_request run.client p).1 in
      let follows = (Reach-IsConsistent (harness failing) v.reach).follows in
      let events = Follows-length run.client follows in
      let more = generated_events run.client p in
      record {
        reach = next v.reach (
            generate p (omega (arith, length-le-transcript rs))
              (omega (arith, length-transcript_grown rs run.client p)));
        flying = All-mono run.c2s.queue (λ e. SentIn-append rs (r ∷ []) e.1) v.flying;
        returning = v.returning;
        saved = v.saved;
        silent = v.silent;
      }

  arrive-Refines : (run : Run G P) → Refines failing run (arrive rand run)
  unfolding arrive generated
  arrive-Refines run =
      let drawn : Run G P = record run { rng = (rand.word run.rng).1 } in
      record {
        small = λ s. omega (arith, generated_events run.client _, s);
        goes = λ s traffic v.
            let v₁ = generated-Implements drawn _ traffic s (drawn-Implements run _ v) in
            (
              _,
              send_request-Implements _ (generated drawn _)
                  (length traffic.requests, get_elem?-last traffic.requests _) v₁,
            );
      }

  resend_found :
      (s : Seq) (r : Request) (run : Run G P)
      → frozen run.client s ≡ some r
      → Refines failing run (send_request rand r run)
  unfolding send_request frozen
  resend_found s r run found = record {
    small = λ small. small;
    goes = λ small traffic v.
        let (i, _, sent) =
          (Reach-IsConsistent (harness failing) v.reach).follows.frozen s r found in
        (traffic, send_request-Implements r run (i, sent) v);
  }

  send_frozen-Refines : (s : Seq) (run : Run G P) → Refines failing run (send_frozen rand s run)
  unfolding send_frozen
  send_frozen-Refines s run = elim (Option-cases (frozen run.client s)) [
    | inl gone ↦ rw (gone, send_frozen) (Refines-refl run)
    | inr (r, found) ↦ rw (found, send_frozen) (resend_found s r run found)
  ]

module _ {G P : Type 0} {failing : Bool} (rand : Random G P) (cfg : Config P) where
  arrive_loop-Refines :
      (left out : ℕ) (run : Run G P) → Refines failing run (arrive_loop rand cfg left out run)
  unfolding arrive_loop
  arrive_loop-Refines zero out run = Refines-refl run
  arrive_loop-Refines (suc left) out run = elim (Bool-cases (ltb out cfg.parallel)) [
    | inl room ↦
        rw (room, arrive_loop)
          (Refines-trans (arrive-Refines rand run)
            (arrive_loop-Refines left (out + 1) (arrive rand run)))
    | inr full ↦ rw (full, arrive_loop) (Refines-refl run)
  ]

  pub generate_part-Refines : (run : Run G P) → Refines failing run (generate_part rand cfg run)
  unfolding generate_part
  generate_part-Refines run =
      Refines-trans
        (record { small = λ s. s; goes = λ s traffic v. (traffic, drawn-Implements rand run _ v) })
        (arrive_loop-Refines _ _ (record run { rng = (rand.arrivals cfg.rate run.rng).1 }))

  resend-Refines : (s : Seq) (run : Run G P) → Refines failing run (resend rand cfg s run)
  unfolding resend
  resend-Refines s run = Refines-if _ (send_frozen-Refines rand s run) (Refines-refl run)

  pub resend_loop-Refines :
      (ss : List Seq) (run : Run G P) → Refines failing run (resend_loop rand cfg ss run)
  unfolding resend_loop
  resend_loop-Refines [] run = Refines-refl run
  resend_loop-Refines (s ∷ ss) run =
      Refines-trans (resend-Refines s run) (resend_loop-Refines ss (resend rand cfg s run))
