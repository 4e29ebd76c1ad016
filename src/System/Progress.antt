-- ===== src/System/Progress.antt =====
-- System: what messages alone, sent and received, lead to.
use color.Prelude.{
  none, [], Option-cases, get_elem?-lt, ℕ, zero, suc, ◌+◌, ◌≤◌, ◌<◌, ◌≡◌, refl, ap, sym, ◌∙◌, inl,
  inr, true, arith, length, get_elem?-total, get_elem?-append_right, Bool-cases, ◌==◌, ==→eq,
  if◌then◌else◌, ◌++◌, subst,
}
use mathlib.Core.Bool.{false≢true}
use color.Dict.{lookup, contains}
use color.Dict.Laws.{contains-add}
use color.Core.Message.{Seq, Response}
use color.Core.History.{event_count}
use color.Core.Client.{Client, on_response, outstanding}
use color.Core.Client.Released.{outstanding-nil}
use color.Core.Server.{on_request}
use color.Core.Server.Progress.{on_request-next}
use color.System.{
  System, Setup, start, Step, Reach, generate, deliver, receive, save, restart, replay, ingest,
  pass, here, next,
}
use color.System.Safety.{Reach-IsConsistent}
use color.System.Histories.{converged}
use color.System.Outstanding.{Reach-Unanswered}

-- The step delivers a request or receives a response.
abbrev pub IsMessage : {W : Type 0} {y z : System W} → Step y z → Type 0
IsMessage (generate payload short counted) = 1 ≤ 0
IsMessage (deliver i req sent) = Unit
IsMessage (receive i resp sent plain) = Unit
IsMessage save = 1 ≤ 0
IsMessage (restart i cp app world on_mismatch set_hash stored failing) = 1 ≤ 0
IsMessage (replay i resp sent asked) = 1 ≤ 0
IsMessage (pass world) = 1 ≤ 0
IsMessage (ingest i rp sent reached) = 1 ≤ 0

abbrev pub OnlyMessages : {W : Type 0} {y z : System W} → Reach y z → Type 0
OnlyMessages here = Unit
OnlyMessages (next r s) = OnlyMessages r × IsMessage s

-- The server has committed every request, every id issued counts as received, and the client has
-- nothing to send again.
pub record IsSettled {W : Type 0} (y : System W) : Type 0 where
  pub committed : y.server.committed_upto + 1 ≡ y.client.next_seq
  pub received : (k : Seq) → 1 ≤ k → k < y.client.next_seq → contains k y.client.received ≡ true
  pub free : outstanding y.client ≡ []
  pub hash : y.server.history.cur_hash ≡ y.client.history.cur_hash
  pub count : event_count y.server.history ≡ event_count y.client.history

on_response-received :
    (c : Client) (resp : Response) (k : Seq)
    → contains k (on_response c resp).0.received
      ≡ (if resp.seq == k then true else contains k c.received)
unfolding on_response
on_response-received c resp k = elim (Bool-cases (contains resp.seq c.received)) [
  | inl old ↦
      rw (old, on_response)
        (elim (Bool-cases (resp.seq == k)) [
          | inl same ↦ rw same (ap (λ j. contains j c.received) (sym (==→eq resp.seq k same)) ∙ old)
          | inr other ↦ rw other refl
        ])
  | inr new ↦ rw (new, on_response) (contains-add resp.seq k c.received)
]

module _ {W : Type 0} (u : Setup W) (y : System W) where
  -- A state that messages alone lead to from `y`, with the first `i` of `n` requests done.
  record Progressed (i n : ℕ) : Type 0 where
    pub state : System W
    pub reached : Reach (start u) state
    pub path : Reach y state
    pub messages : OnlyMessages path
    pub issued : length state.requests ≡ n
    pub committed : i ≤ state.server.committed_upto
    pub received : (k : Seq) → 1 ≤ k → k ≤ i → contains k state.client.received ≡ true

  -- The next request is delivered, and one of its responses received.
  exchange : (i n : ℕ) → i < n → Progressed i n → Progressed (suc i) n
  exchange i n more p =
      let z = p.state in
      let v = Reach-IsConsistent u p.reached in
      let (req, sent) = get_elem?-total z.requests i (omega (arith, p.issued)) in
      let ((j, resp, there, numbered, plain), grown) =
        on_request-next v.conversation z.server i req v.agrees sent p.committed in
      let mid : System W = record z {
        server = (on_request z.server req).0;
        responses = z.responses ++ (on_request z.server req).1;
      } in
      let asked : Step z mid = deliver i req sent in
      let answered : Step mid (record mid { client = (on_response z.client resp).0 }) =
        receive (length z.responses + j) resp
          (get_elem?-append_right z.responses (on_request z.server req).1 j ∙ there) plain in
      record {
        state = record mid { client = (on_response z.client resp).0 };
        reached = next (next p.reached asked) answered;
        path = next (next p.path asked) answered;
        messages = ((p.messages, tt), tt);
        issued = p.issued;
        committed = grown;
        received = λ k one low.
            on_response-received z.client resp k ∙ elim (Bool-cases (resp.seq == k)) [
              | inl same ↦ rw same refl
              | inr other ↦ rw other (p.received k one (ground (arith, numbered)))
            ];
      }

  exchanges : (left i n : ℕ) → i + left ≡ n → Progressed i n → Progressed n n
  exchanges zero i n done p = subst (λ k. Progressed k n) (omega (arith, done)) p
  exchanges (suc left) i n more p =
      exchanges left (suc i) n (omega (arith, more)) (exchange i n (omega (arith, more)) p)

-- No request is held any more when all are done.
held_none :
    {W : Type 0} (u : Setup W) {z : System W}
    → Reach (start u) z
    → ((k : Seq) → 1 ≤ k → k ≤ length z.requests → contains k z.client.received ≡ true)
    → (k : Seq) → lookup k z.client.inflight ≡ none
held_none u {z} r received k = elim (Option-cases (lookup k z.client.inflight)) [
  | inl gone ↦ gone
  | inr (q, held) ↦
      let (i, numbered, sent) = (Reach-IsConsistent u r).follows.frozen k q held in
      let low : k ≤ length z.requests = omega (arith, numbered, get_elem?-lt z.requests i sent) in
      absurd (
        false≢true (sym (Reach-Unanswered u r k q held) ∙ received k (omega (arith, numbered)) low))
]

done-IsSettled :
    {W : Type 0} (u : Setup W) {z : System W}
    → Reach (start u) z
    → length z.requests ≤ z.server.committed_upto
    → ((k : Seq) → 1 ≤ k → k ≤ length z.requests → contains k z.client.received ≡ true)
    → IsSettled z
done-IsSettled u {z} r committed received =
    let v = Reach-IsConsistent u r in
    let numbered = v.follows.numbered in
    let all : z.server.committed_upto + 1 ≡ z.client.next_seq = omega (arith, v.agrees.behind) in
    let (hash, count) = converged u r all in
    record {
      committed = all;
      received = λ k one low. received k one (omega arith);
      free = outstanding-nil z.client (held_none u r received);
      hash = hash;
      count = count;
    }

-- From any moment of a conversation, whatever was lost before, requests delivered that were sent and
-- responses received are enough to settle it, without a request generated, a replay or a restart: the
-- server has then committed every request issued, every id issued counts as received, the client
-- holds no request for retransmission, and the two hashes and event counts are equal.
pub Reach-IsSettled :
    {W : Type 0} (u : Setup W) {y : System W}
    → Reach (start u) y
    → (z : System W) × (p : Reach y z) × OnlyMessages p × IsSettled z
Reach-IsSettled u {y} r =
    let n = length y.requests in
    let p : Progressed u y n n = exchanges u y n 0 n (omega arith) (record {
      state = y;
      reached = r;
      path = here;
      messages = tt;
      issued = refl;
      committed = omega arith;
      received = λ k one low. absurd (omega arith);
    }) in
    (
      p.state,
      p.path,
      p.messages,
      done-IsSettled u p.reached (omega (arith, p.issued, p.committed))
          (λ k one low. p.received k one (omega (arith, p.issued))),
    )
