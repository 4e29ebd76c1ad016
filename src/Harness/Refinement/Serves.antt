-- ===== src/Harness/Refinement/Serves.antt =====
-- fuzz_main.cpp, run_one: the delivery of requests and of responses as steps of System.
use color.Prelude.{
  ◌+◌, ◌≡◌, refl, sym, ◌∙◌, List, [], ◌∷◌, ◌++◌, length, All, All-mono, subst, Bool, arith, ◌<◌,
  u64_mod,
}
use color.Core.Message.{Request, Response}
use color.Core.Client.{Client, on_response}
use color.Core.Server.Plain.{IsPlain}
use color.System.{receive, next}
use color.Harness.Link.{Random, due}
use color.Harness.Link.Contents.{All-send, All-pop}
use color.Harness.Driver.{
  Run, handle, respond_loop, deliver_loop, receive_loop, request_part, response_part,
}
use color.Harness.Handshake.{handle-Reach}
use color.Harness.Handled.{SentIn, SentIn-append, handled}
use color.Harness.Refinement.{harness, Traffic, Flying, Implements, Refines}

All-both :
    {M : Type 0} (A B : M → Type 0) (ms : List M) → All A ms → All B ms → All (λ m. A m × B m) ms
All-both A B [] a b = tt
All-both A B (m ∷ ms) a b = ((a.0, b.0), All-both A B ms a.1 b.1)

on_response-history : (c : Client) (resp : Response) → (on_response c resp).0.history ≡ c.history
unfolding on_response
on_response-history c resp = ground arith

module _ {G P : Type 0} where
  respond_loop-client :
      (rand : Random G P) (resps : List Response) (run : Run G P)
      → (respond_loop rand resps run).client ≡ run.client
  unfolding respond_loop
  respond_loop-client rand [] run = refl
  respond_loop-client rand (resp ∷ resps) run = respond_loop-client rand resps _

  served : Run G P → Request → Run G P
  served run req = record run { server = (handle run.client run.server req).0 }

  deliver_loop-client :
      (rand : Random G P) (reqs : List Request) (run : Run G P)
      → (deliver_loop rand reqs run).client ≡ run.client
  unfolding deliver_loop
  deliver_loop-client rand [] run = refl
  deliver_loop-client rand (req ∷ reqs) run =
      deliver_loop-client rand reqs _ ∙ respond_loop-client rand _ _

  receive_loop-history :
      (resps : List Response) (run : Run G P)
      → (receive_loop resps run).client.history ≡ run.client.history
  unfolding receive_loop
  receive_loop-history [] run = refl
  receive_loop-history (resp ∷ resps) run =
      receive_loop-history resps _ ∙ on_response-history run.client resp

module _ {G P : Type 0} {failing : Bool} where
  respond_loop-Implements :
      (rand : Random G P) (resps : List Response) (run : Run G P) {traffic : Traffic}
      → All (Flying traffic.responses) resps
      → Implements failing run traffic
      → Implements failing (respond_loop rand resps run) traffic
  unfolding respond_loop
  respond_loop-Implements rand [] run sent v = v
  respond_loop-Implements rand (resp ∷ resps) run {traffic} sent v =
      respond_loop-Implements rand resps _ sent.1 (record {
        reach = v.reach;
        flying = v.flying;
        returning =
            All-send (Flying traffic.responses) rand run.now resp sent.0 run.s2c run.rng
              v.returning;
        saved = v.saved;
        silent = v.silent;
      })

  served-Implements :
      (run : Run G P) (req : Request) (traffic : Traffic)
      → SentIn traffic.requests req
      → Implements failing run traffic
      → (traffic' : Traffic) × Implements failing (served run req) traffic'
        × All (Flying traffic'.responses) (handle run.client run.server req).1
        × (traffic'.requests ≡ traffic.requests)
  unfolding served
  served-Implements run req traffic (i, sent) v =
      let (more, replays, reach, answers) = handled (harness failing) v.reach i req sent in
      let plain = (handle-Reach (harness failing) v.reach i req sent).2 in
      (
        record traffic { responses = traffic.responses ++ more; replays = replays },
        record {
          reach = reach;
          flying = v.flying;
          returning =
              All-mono run.s2c.queue
                (λ e (here, plain). (SentIn-append traffic.responses more e.1 here, plain))
                v.returning;
          saved = v.saved;
          silent = v.silent;
        },
        All-both (SentIn (traffic.responses ++ more)) IsPlain _ answers plain,
        refl,
      )

  deliver_loop-Implements :
      (rand : Random G P) (reqs : List Request) (run : Run G P) (traffic : Traffic)
      → All (SentIn traffic.requests) reqs
      → Implements failing run traffic
      → (traffic' : Traffic) × Implements failing (deliver_loop rand reqs run) traffic'
  unfolding deliver_loop served
  deliver_loop-Implements rand [] run traffic sent v = (traffic, v)
  deliver_loop-Implements rand (req ∷ reqs) run traffic sent v =
      let (traffic₁, v₁, flying, same) = served-Implements run req traffic sent.0 v in
      deliver_loop-Implements rand reqs _ traffic₁
        (subst (λ rs. All (SentIn rs) reqs) (sym same) sent.1)
        (respond_loop-Implements rand _ (served run req) flying v₁)

  pub request_part-Refines :
      (rand : Random G P) (run : Run G P) → Refines failing run (request_part rand run)
  unfolding request_part due
  request_part-Refines rand run = record {
    small =
        subst (λ (c : Client). length c.history.events + 2 < u64_mod)
          (deliver_loop-client rand _ _);
    goes = λ small traffic v.
        let (out, rest) = All-pop (SentIn traffic.requests) run.now run.c2s.queue v.flying in
        deliver_loop-Implements rand _ _ traffic out (record {
          reach = v.reach;
          flying = rest;
          returning = v.returning;
          saved = v.saved;
          silent = v.silent;
        });
  }

  receive_loop-Implements :
      (resps : List Response) (run : Run G P) {traffic : Traffic}
      → All (Flying traffic.responses) resps
      → Implements failing run traffic
      → Implements failing (receive_loop resps run) traffic
  unfolding receive_loop
  receive_loop-Implements [] run sent v = v
  receive_loop-Implements (resp ∷ resps) run sent v =
      let ((i, here), plain) = sent.0 in
      receive_loop-Implements resps _ sent.1 (record {
        reach = next v.reach (receive i resp here plain);
        flying = v.flying;
        returning = v.returning;
        saved = v.saved;
        silent = v.silent;
      })

  pub response_part-Refines : (run : Run G P) → Refines failing run (response_part run)
  unfolding response_part due
  response_part-Refines run = record {
    small = subst (λ h. length h.events + 2 < u64_mod) (receive_loop-history _ _);
    goes = λ small traffic v.
        let (out, rest) = All-pop (Flying traffic.responses) run.now run.s2c.queue v.returning in
        (
          traffic,
          receive_loop-Implements _ _ out (record {
            reach = v.reach;
            flying = v.flying;
            returning = rest;
            saved = v.saved;
            silent = v.silent;
          }),
        );
  }
