-- ===== src/System/Safety.antt =====
-- System: the two sides, and all that was sent, stand for one conversation.
use color.Prelude.{
  ℕ, ◌≤◌, List, [], ◌∷◌, length, All, All-append, All-mono, All-get_elem?, arith, length-append,
}
use color.Core.Message.{Request}
use color.Core.Checkpoint.{Replay}
use color.Core.Client.{generate_request}
use color.Core.Client.Invariant.{Follows, new_client-Follows, build_replay-IsReplayUpto}
use color.Core.Client.Receiving.{on_response-Follows}
use color.Core.Client.Sending.{generate_request-Follows}
use color.Core.Server.Agreement.{
  IsConversation, Agrees, Answers, new_server-Agrees, nil-IsConversation, world-Agrees,
}
use color.Core.Server.Safety.{on_request-Agrees}
use color.Core.Server.Failover.{IsCheckpointOf, checkpoint-IsCheckpointOf, resumed_server-Agrees}
use color.Core.Server.Recovery.{IsReplayUpto, ingest_replay-Agrees}
use color.Core.Server.Growth.{grown-Agrees, grown-Answers, grown-IsCheckpointOf, grown-IsReplayUpto}
use color.System.{
  System, Setup, start, Step, Reach, generate, deliver, receive, save, restart, replay, ingest,
  pass, here, next,
}

abbrev pub IsReplayOf : List Request → Replay → Type 0
IsReplayOf rs rp = (k : ℕ) × (k ≤ length rs) × IsReplayUpto rs k rp

-- Everything in the world stands for one conversation.
pub record IsConsistent {W : Type 0} (y : System W) : Type 0 where
  pub conversation : IsConversation y.requests
  pub follows : Follows y.requests y.client
  pub agrees : Agrees y.requests y.server
  pub answers : All (Answers y.requests) y.responses
  pub saved : All (IsCheckpointOf y.requests) y.checkpoints
  pub replayed : All (IsReplayOf y.requests) y.replays

module _ {W : Type 0} where
  start-IsConsistent : (u : Setup W) → IsConsistent (start u)
  unfolding start
  start-IsConsistent u =
      let fresh = new_server-Agrees u.app u.world u.server_mismatch u.server_hash in
      record {
        conversation = nil-IsConversation;
        follows = new_client-Follows u.client_deliver u.client_mismatch u.client_hash;
        agrees = fresh;
        answers = tt;
        saved = (checkpoint-IsCheckpointOf nil-IsConversation _ fresh, tt);
        replayed = tt;
      }

  Step-IsConsistent : {y z : System W} → Step y z → IsConsistent y → IsConsistent z
  Step-IsConsistent {y} (generate payload short counted) v =
      let (conv, follows) =
        generate_request-Follows y.requests y.client payload v.conversation v.follows short
          counted in
      let r : Request = (generate_request y.client payload).1 in
      record {
        conversation = conv;
        follows = follows;
        agrees = grown-Agrees y.requests r y.server v.agrees;
        answers = All-mono y.responses (grown-Answers y.requests r) v.answers;
        saved = All-mono y.checkpoints (grown-IsCheckpointOf y.requests r) v.saved;
        replayed =
            All-mono y.replays
              (λ rp (k, low, same). (
                k,
                omega (arith, length-append y.requests (r ∷ [])),
                grown-IsReplayUpto y.requests r k rp low same,
              ))
              v.replayed;
      }
  Step-IsConsistent {y} (deliver i req sent) v =
      let (agrees, answers) = on_request-Agrees v.conversation y.server i req v.agrees sent in
      record {
        conversation = v.conversation;
        follows = v.follows;
        agrees = agrees;
        answers = All-append (Answers y.requests) y.responses _ v.answers answers;
        saved = v.saved;
        replayed = v.replayed;
      }
  Step-IsConsistent {y} (receive i resp sent plain) v = record {
    conversation = v.conversation;
    follows =
        on_response-Follows v.conversation y.client resp
          (All-get_elem? (Answers y.requests) y.responses i v.answers sent) v.follows;
    agrees = v.agrees;
    answers = v.answers;
    saved = v.saved;
    replayed = v.replayed;
  }
  Step-IsConsistent {y} save v = record {
    conversation = v.conversation;
    follows = v.follows;
    agrees = v.agrees;
    answers = v.answers;
    saved =
        All-append (IsCheckpointOf y.requests) y.checkpoints _ v.saved
          (checkpoint-IsCheckpointOf v.conversation y.server v.agrees, tt);
    replayed = v.replayed;
  }
  Step-IsConsistent {y} (restart i cp app world on_mismatch set_hash stored failing) v = record {
    conversation = v.conversation;
    follows = v.follows;
    agrees =
        resumed_server-Agrees v.conversation cp app world on_mismatch set_hash
          (All-get_elem? (IsCheckpointOf y.requests) y.checkpoints i v.saved stored);
    answers = v.answers;
    saved = v.saved;
    replayed = v.replayed;
  }
  Step-IsConsistent {y} (replay i resp sent asked) v = record {
    conversation = v.conversation;
    follows = v.follows;
    agrees = v.agrees;
    answers = v.answers;
    saved = v.saved;
    replayed = All-append (IsReplayOf y.requests) y.replays _ v.replayed (
      (
        length y.requests,
        omega arith,
        build_replay-IsReplayUpto y.requests y.client resp.recover_from v.follows,
      ),
      tt,
    );
  }
  Step-IsConsistent {y} (ingest i rp sent reached) v =
      let (k, low, same) = All-get_elem? (IsReplayOf y.requests) y.replays i v.replayed sent in
      record {
        conversation = v.conversation;
        follows = v.follows;
        agrees = (ingest_replay-Agrees v.conversation y.server k rp low same reached v.agrees).0;
        answers = v.answers;
        saved = v.saved;
        replayed = v.replayed;
      }
  Step-IsConsistent {y} (pass world) v = record {
    conversation = v.conversation;
    follows = v.follows;
    agrees = world-Agrees y.server world v.agrees;
    answers = v.answers;
    saved = v.saved;
    replayed = v.replayed;
  }

  Reach-keeps : {y z : System W} → IsConsistent y → Reach y z → IsConsistent z
  Reach-keeps v here = v
  Reach-keeps v (next r st) = Step-IsConsistent st (Reach-keeps v r)

  pub Reach-IsConsistent : (u : Setup W) {y : System W} → Reach (start u) y → IsConsistent y
  Reach-IsConsistent u r = Reach-keeps (start-IsConsistent u) r
