-- ===== src/System/Steady.antt =====
-- System: a conversation without failovers.
use color.Prelude.{
  ℕ, suc, ◌+◌, ◌-◌, ◌≤◌, ◌<◌, ◌≡◌, refl, ap, sym, ◌∙◌, inl, inr, true, false, some, List, [], ◌∷◌,
  ◌++◌, arith, get_elem?, ltb, inc64-eq, All, All-append, All-mono, All-get_elem?, Bool-cases,
  u64_mod, ltb→lt,
}
use color.Dict.{contains}
use color.Dict.Laws.{contained-add}
use color.Text.{Bytes}
use color.Core.Message.{Seq, Request, Response}
use color.Core.History.{empty_history}
use color.Core.Client.{Client, new_client, generate_request, on_response}
use color.Core.Client.Invariant.{Follows}
use color.Core.Server.{Server, new_server, any_above, needs_recover, on_request}
use color.Core.Server.Plain.{IsPlain, on_request-IsPlain}
use color.Core.Server.Unbroken.{IsUnbroken, on_request-StaysUnbroken}
use color.System.{
  System, Setup, start, Step, Reach, generate, deliver, receive, save, restart, replay, ingest,
  pass, here, next,
}
use color.System.Safety.{IsConsistent, Reach-IsConsistent}

-- A request acknowledges only what is committed.
abbrev pub AcksUpto : Seq → Request → Type 0
AcksUpto top req = (req.ack_base ≤ suc top) × All (λ k. k ≤ top) req.ack_new

pub record IsSteady {W : Type 0} (y : System W) : Type 0 where
  pub calm : y.failing ≡ false
  pub server : IsUnbroken y.server
  pub plain : All IsPlain y.responses
  pub unreplayed : y.replays ≡ []
  pub answered : All (λ resp. resp.seq ≤ y.server.committed_upto) y.responses
  pub received : (k : Seq) → contains k y.client.received ≡ true → k ≤ y.server.committed_upto
  pub acked : All (AcksUpto y.server.committed_upto) y.requests

any_above-none : (n : ℕ) (acks : List Seq) → All (λ k. k ≤ n) acks → any_above n acks ≡ false
unfolding any_above
any_above-none n [] h = refl
any_above-none n (k ∷ acks) h = ground (arith, any_above-none n acks h.1, h.0)

AcksUpto-needs_recover :
    {W : Type 0} (s : Server W) (req : Request)
    → s.committed_upto + 1 < u64_mod
    → AcksUpto s.committed_upto req
    → needs_recover s req ≡ false
unfolding needs_recover
AcksUpto-needs_recover s req room (base, acks) =
    ground (arith, inc64-eq s.committed_upto, any_above-none s.committed_upto req.ack_new acks)

AcksUpto-mono : (low high : ℕ) (req : Request) → low ≤ high → AcksUpto low req → AcksUpto high req
AcksUpto-mono low high req h (base, acks) =
    (omega arith, All-mono req.ack_new (λ k e. omega arith) acks)

-- What the client acknowledges has been received, hence committed.
generated-AcksUpto :
    {rs : List Request} (c : Client) (p : Bytes) (top : ℕ)
    → Follows rs c
    → ((k : Seq) → contains k c.received ≡ true → k ≤ top)
    → AcksUpto top (generate_request c p).1
unfolding generate_request
generated-AcksUpto c p top f received = (
  elim (Bool-cases (ltb c.base 2)) [
    | inl first ↦ omega (arith, ltb→lt c.base 2 first)
    | inr later ↦
        let base : 2 ≤ c.base = ground arith in
        omega (arith, received (c.base - 1) (f.based (c.base - 1) (omega arith) (omega arith)))
  ],
  All-mono c.pending_new received f.acked,
)

received-on_response :
    (c : Client) (resp : Response) (top : ℕ)
    → resp.seq ≤ top
    → ((k : Seq) → contains k c.received ≡ true → k ≤ top)
    → (k : Seq) → contains k (on_response c resp).0.received ≡ true
    → k ≤ top
unfolding on_response
received-on_response c resp top low v k got = elim (Bool-cases (contains resp.seq c.received)) [
  | inl old ↦ v k (rw (old, on_response) at got)
  | inr new ↦ elim (contained-add resp.seq k c.received (rw (new, on_response) at got)) [
    | inl same ↦ omega arith
    | inr before ↦ v k before
  ]
]

module _ {W : Type 0} where
  deliver-IsSteady :
      (y : System W) (i : ℕ) (req : Request)
      → get_elem? y.requests i ≡ some req
      → IsConsistent y
      → IsSteady y
      → IsSteady (record y {
        server = (on_request y.server req).0;
        responses = y.responses ++ (on_request y.server req).1;
      })
  deliver-IsSteady y i req sent c v =
      let behind = c.agrees.behind in
      let short = c.conversation.short in
      let fine =
        AcksUpto-needs_recover y.server req (omega arith)
          (All-get_elem? (AcksUpto y.server.committed_upto) y.requests i v.acked sent) in
      let (server, grows, fresh) =
        on_request-StaysUnbroken c.conversation y.server i req c.agrees sent fine v.server in
      let top = (on_request y.server req).0.committed_upto in
      record {
        calm = v.calm;
        server = server;
        plain = All-append IsPlain y.responses _ v.plain (on_request-IsPlain y.server req fine);
        unreplayed = v.unreplayed;
        answered =
            All-append (λ resp. resp.seq ≤ top) y.responses _
              (All-mono y.responses (λ resp low. omega (arith, low, grows)) v.answered) fresh;
        received = λ k got. omega (arith, v.received k got, grows);
        acked =
            All-mono y.requests (λ q. AcksUpto-mono y.server.committed_upto top q grows) v.acked;
      }

  Step-IsSteady : {y z : System W} → Step y z → IsConsistent y → IsSteady y → IsSteady z
  Step-IsSteady {y} (generate payload short counted) c v =
      let top = y.server.committed_upto in
      record {
        calm = v.calm;
        server = v.server;
        plain = v.plain;
        unreplayed = v.unreplayed;
        answered = v.answered;
        received = unfold generate_request in v.received;
        acked =
            All-append (AcksUpto top) y.requests _ v.acked
              (generated-AcksUpto y.client payload top c.follows v.received, tt);
      }
  Step-IsSteady {y} (deliver i req sent) c v = deliver-IsSteady y i req sent c v
  Step-IsSteady {y} (receive i resp sent plain) c v = record {
    calm = v.calm;
    server = v.server;
    plain = v.plain;
    unreplayed = v.unreplayed;
    answered = v.answered;
    received =
        received-on_response y.client resp y.server.committed_upto
          (All-get_elem? (λ q. q.seq ≤ y.server.committed_upto) y.responses i v.answered sent)
          v.received;
    acked = v.acked;
  }
  Step-IsSteady save c v = record {
    calm = v.calm;
    server = v.server;
    plain = v.plain;
    unreplayed = v.unreplayed;
    answered = v.answered;
    received = v.received;
    acked = v.acked;
  }
  Step-IsSteady (restart i cp app world on_mismatch set_hash stored failing) c v =
      absurd (cc (v.calm))
  Step-IsSteady {y} (replay i resp sent asked) c v =
      absurd (cc (All-get_elem? IsPlain y.responses i v.plain sent))
  Step-IsSteady {y} (ingest i rp sent reached) c v =
      absurd (none_sent (ap (λ rps. get_elem? rps i) (sym v.unreplayed) ∙ sent))
    where
      none_sent : get_elem? [] i ≡ some rp → ⊥
      none_sent h = cc
  Step-IsSteady (pass world) c v = record {
    calm = v.calm;
    server = record { whole = v.server.whole; unowed = v.server.unowed; sized = v.server.sized };
    plain = v.plain;
    unreplayed = v.unreplayed;
    answered = v.answered;
    received = v.received;
    acked = v.acked;
  }

  start-IsSteady : (u : Setup W) → u.failing ≡ false → IsSteady (start u)
  unfolding start new_server new_client empty_history contains
  start-IsSteady u calm = record {
    calm = calm;
    server = record { whole = refl; unowed = refl; sized = refl };
    plain = tt;
    unreplayed = refl;
    answered = tt;
    received = λ k got. absurd (cc);
    acked = tt;
  }

  -- In a conversation without failovers, at any moment: the server holds the history from its first
  -- event on, owes no response, and has as many entries in its record of calls as committed ids;
  -- every response sent is for a committed id, so is every id received, and every request sent
  -- acknowledges committed ids only; no recovery was asked for and nothing replayed.
  pub Reach-IsSteady :
      (u : Setup W) {y : System W} → u.failing ≡ false → Reach (start u) y → IsSteady y
  Reach-IsSteady u calm here = start-IsSteady u calm
  Reach-IsSteady u calm (next r s) =
      Step-IsSteady s (Reach-IsConsistent u r) (Reach-IsSteady u calm r)
