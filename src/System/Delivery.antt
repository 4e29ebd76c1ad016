-- ===== src/System/Delivery.antt =====
-- System: the ids that the client has passed on to its user.
use color.Prelude.{◌≡◌, true, All}
use color.Dict.{contains}
use color.Core.Client.{generate_request, new_client}
use color.Core.Client.Delivery.{DeliversOnce, Distinct, delivered_ids, on_response-DeliversOnce}
use color.System.{
  System, Setup, start, Step, Reach, generate, deliver, receive, save, restart, replay, ingest,
  pass, here, next,
}

module _ {W : Type 0} where
  Step-DeliversOnce : {y z : System W} → Step y z → DeliversOnce y.client → DeliversOnce z.client
  unfolding generate_request
  Step-DeliversOnce (generate payload short counted) v = record {
    distinct = v.distinct;
    known = v.known;
  }
  Step-DeliversOnce (deliver i req sent) v = v
  Step-DeliversOnce {y} (receive i resp sent plain) v = on_response-DeliversOnce y.client resp v
  Step-DeliversOnce save v = v
  Step-DeliversOnce (restart i cp app world on_mismatch set_hash stored failing) v = v
  Step-DeliversOnce (replay i resp sent asked) v = v
  Step-DeliversOnce (ingest i rp sent reached) v = v
  Step-DeliversOnce (pass world) v = v

  Reach-DeliversOnce : (u : Setup W) {y : System W} → Reach (start u) y → DeliversOnce y.client
  unfolding start new_client
  Reach-DeliversOnce u here = record { distinct = tt; known = tt }
  Reach-DeliversOnce u (next r s) = Step-DeliversOnce s (Reach-DeliversOnce u r)

-- At any moment of a conversation, the ids that the client has passed on to its user are all
-- different, however often responses were repeated and whatever the server lost, and each of them
-- counts as received.
pub Reach-Distinct :
    {W : Type 0} (u : Setup W) {y : System W}
    → Reach (start u) y
    → Distinct (delivered_ids y.client)
      × All (λ k. contains k y.client.received ≡ true) (delivered_ids y.client)
Reach-Distinct u r = ((Reach-DeliversOnce u r).distinct, (Reach-DeliversOnce u r).known)
