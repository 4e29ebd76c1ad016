-- ===== src/System/Outstanding.antt =====
-- System: the requests that the client holds until their responses have come.
use color.Prelude.{ℕ, suc, ◌≤◌, ◌<◌, ◌≡◌, ◌⊎◌, inl, inr, true, some, arith, get_elem?}
use color.Dict.{lookup, contains}
use color.Core.Message.{Seq, Request}
use color.Core.Client.{new_client, frozen}
use color.Core.Client.Outstanding.{Keeps, generate_request-Keeps, on_response-Keeps}
use color.Core.Client.Released.{Unanswered, generate_request-Unanswered, on_response-Unanswered}
use color.System.{
  System, Setup, start, Step, Reach, generate, deliver, receive, save, restart, replay, ingest,
  pass, here, next,
}
use color.System.Safety.{IsConsistent, Reach-IsConsistent}

module _ {W : Type 0} where
  Step-Keeps : {y z : System W} → Step y z → IsConsistent y → Keeps y.client → Keeps z.client
  Step-Keeps {y} (generate payload short counted) c v =
      generate_request-Keeps y.client payload (omega (arith, c.follows.numbered)) v
  Step-Keeps (deliver i req sent) c v = v
  Step-Keeps {y} (receive i resp sent plain) c v = on_response-Keeps y.client resp v
  Step-Keeps save c v = v
  Step-Keeps (restart i cp app world on_mismatch set_hash stored failing) c v = v
  Step-Keeps (replay i resp sent asked) c v = v
  Step-Keeps (ingest i rp sent reached) c v = v
  Step-Keeps (pass world) c v = v

  pub Reach-Keeps : (u : Setup W) {y : System W} → Reach (start u) y → Keeps y.client
  unfolding start new_client
  Reach-Keeps u here k one low = absurd (omega arith)
  Reach-Keeps u (next r s) k one low =
      Step-Keeps s (Reach-IsConsistent u r) (Reach-Keeps u r) k one low

  Step-Unanswered :
      {y z : System W} → Step y z → IsConsistent y → Unanswered y.client → Unanswered z.client
  Step-Unanswered {y} (generate payload short counted) c v =
      generate_request-Unanswered y.requests y.client payload c.follows v
  Step-Unanswered (deliver i req sent) c v = v
  Step-Unanswered {y} (receive i resp sent plain) c v = on_response-Unanswered y.client resp v
  Step-Unanswered save c v = v
  Step-Unanswered (restart i cp app world on_mismatch set_hash stored failing) c v = v
  Step-Unanswered (replay i resp sent asked) c v = v
  Step-Unanswered (ingest i rp sent reached) c v = v
  Step-Unanswered (pass world) c v = v

  pub Reach-Unanswered : (u : Setup W) {y : System W} → Reach (start u) y → Unanswered y.client
  unfolding start new_client lookup
  Reach-Unanswered u here k r held = absurd (cc)
  Reach-Unanswered u (next r s) k q held =
      Step-Unanswered s (Reach-IsConsistent u r) (Reach-Unanswered u r) k q held

-- At any moment of a conversation, each id that the client has issued counts as received, or the
-- client still holds its request, which is the one that was sent under this id.
pub frozen-Reach :
    {W : Type 0} (u : Setup W) {y : System W}
    → Reach (start u) y
    → (k : Seq) → 1 ≤ k
    → k < y.client.next_seq
    → (contains k y.client.received ≡ true)
      ⊎ ((i : ℕ) × (r : Request) × (k ≡ suc i)
          × (frozen y.client k ≡ some r)
          × (get_elem? y.requests i ≡ some r))
unfolding frozen
frozen-Reach u {y} r k one low = elim (Reach-Keeps u r k one low) [
  | inl got ↦ inl got
  | inr (q, held) ↦
      let (i, numbered, sent) = (Reach-IsConsistent u r).follows.frozen k q held in
      inr (i, q, numbered, held, sent)
]
