-- ===== src/System/Calls.antt =====
-- System: the record of calls of the server process of a moment.
use color.Prelude.{◌≡◌, All}
use color.Dict.Counts.{IsMap}
use color.Core.Server.{new_server}
use color.Core.Server.Calls.{
  on_request-IsMap, ingest_replay-IsMap, resumed_server-IsMap, called_once,
}
use color.System.{
  System, Setup, start, Step, Reach, generate, deliver, receive, save, restart, replay, ingest,
  pass, here, next,
}
use color.System.Safety.{Reach-IsConsistent}

module _ {W : Type 0} where
  Step-IsMap : {y z : System W} → Step y z → IsMap y.server.app_calls → IsMap z.server.app_calls
  Step-IsMap (generate payload short counted) v = v
  Step-IsMap {y} (deliver i req sent) v = on_request-IsMap y.server req v
  Step-IsMap (receive i resp sent plain) v = v
  Step-IsMap save v = v
  Step-IsMap (restart i cp app world on_mismatch set_hash stored failing) v =
      resumed_server-IsMap cp app world on_mismatch set_hash
  Step-IsMap (replay i resp sent asked) v = v
  Step-IsMap {y} (ingest i rp sent reached) v = ingest_replay-IsMap y.server rp v
  Step-IsMap (pass world) v = v

  Reach-IsMap : (u : Setup W) {y : System W} → Reach (start u) y → IsMap y.server.app_calls
  unfolding start new_server
  Reach-IsMap u here = tt
  Reach-IsMap u (next r s) = Step-IsMap s (Reach-IsMap u r)

  pub called_once-Reach :
      (u : Setup W) {y : System W} → Reach (start u) y → All (λ call. call.1 ≡ 1) y.server.app_calls
  called_once-Reach u {y} r = called_once y.server (Reach-IsConsistent u r).agrees (Reach-IsMap u r)
