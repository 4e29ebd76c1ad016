-- ===== src/Tests/Runs.antt =====
-- A conversation with a failover: two requests, the first answered, a restart from the empty
-- checkpoint, the recovery signal, the replay.
use color.Prelude.{ℕ, ◌+◌, ◌≡◌, refl, true, false, none, [], ◌∷◌, ◌++◌, arith, add64, inc64}
use color.Text.{Bytes, codes, to_string, digits}
use color.Dict.{lookup, insert, erase, contains, add, remove}
use color.Core.Message.{Request, Response}
use color.Core.Checkpoint.{Checkpoint, Replay}
use color.Core.Transcript.{transcript}
use color.Core.History.{
  append, append_responses, event_count, empty_history, hash_seed, hash_step, resumed_history,
}
use color.Core.Client.{
  new_client, generate_request, on_response, advance_base, build_replay, replay_event,
}
use color.Core.Server.{
  App, new_server, on_request, commit, write_request, process, check_hash, count_call,
  make_response, reprocess,
}
use color.Core.Server.Resume.{resumed_server, checkpoint, ingest_replay}
use color.System.{
  System, Setup, start, Reach, generate, deliver, receive, restart, replay, ingest, here, next,
}

-- Everything that these runs compute with.
unfoldable pub running : Unit {0}
unfolding add64 inc64 digits to_string lookup insert erase contains add remove append
    append_responses event_count empty_history hash_seed hash_step resumed_history new_client
    generate_request on_response advance_base build_replay replay_event new_server on_request
    resumed_server checkpoint ingest_replay commit write_request process check_hash count_call
    make_response reprocess start transcript
running = tt

-- An application that numbers its answers.
abbrev pub numbering : App ℕ
numbering n seq payload committed = (n ∷ payload, n + 1)

abbrev pub numbered : Setup ℕ
numbered = record {
  app = numbering;
  world = 0;
  server_mismatch = true;
  server_hash = true;
  client_deliver = true;
  client_mismatch = true;
  client_hash = true;
  failing = true;
}

abbrev pub hello : Bytes
hello = codes "hello"

abbrev pub generated : System ℕ → System ℕ
generated y = record y {
  client = (generate_request y.client hello).0;
  requests = y.requests ++ (generate_request y.client hello).1 ∷ [];
}

abbrev pub delivered : Request → System ℕ → System ℕ
delivered req y = record y {
  server = (on_request y.server req).0;
  responses = y.responses ++ (on_request y.server req).1;
}

abbrev pub received : Response → System ℕ → System ℕ
received resp y = record y { client = (on_response y.client resp).0 }

abbrev pub restarted : Checkpoint → System ℕ → System ℕ
restarted cp y = record y { server = resumed_server cp y.server.app 0 true true }

abbrev pub replayed : Response → System ℕ → System ℕ
replayed resp y = record y { replays = y.replays ++ build_replay y.client resp.recover_from ∷ [] }

abbrev pub ingested : Replay → System ℕ → System ℕ
ingested rp y = record y { server = ingest_replay y.server rp }

abbrev pub opened : System ℕ
opened = generated (start numbered)

abbrev pub first : Request
first = (generate_request (start numbered).client hello).1

abbrev pub first_answer : Response
first_answer = record {
  seq = 1;
  hash = first.hash;
  payload = 0 ∷ hello;
  no_op = false;
  recover = false;
  recover_from = 0;
}

first_answer_lem : (on_request opened.server first).1 ≡ first_answer ∷ []
unfolding running
first_answer_lem = refl

abbrev pub answered : System ℕ
answered = generated (received first_answer (delivered first opened))

abbrev pub second : Request
second = (generate_request (received first_answer (delivered first opened)).client hello).1

-- The server crashes and comes back with nothing; the second request acknowledges what it lost.
abbrev pub crashed : System ℕ
crashed = restarted (checkpoint (start numbered).server) answered

abbrev pub signal : Response
signal = record {
  seq = 2;
  hash = none;
  payload = [];
  no_op = false;
  recover = true;
  recover_from = 0;
}

signal_lem : (on_request crashed.server second).1 ≡ signal ∷ []
unfolding running
signal_lem = refl

abbrev pub signalled : System ℕ
signalled = replayed signal (delivered second crashed)

abbrev pub recovered : System ℕ
recovered = ingested (build_replay (delivered second crashed).client 0) signalled

recovered_hash : recovered.server.history.cur_hash ≡ recovered.client.history.cur_hash
unfolding running
recovered_hash = refl

pub opened-Reach : Reach (start numbered) opened
unfolding running
opened-Reach = next here (generate hello (omega arith) (omega arith))

pub answered-Reach : Reach (start numbered) answered
unfolding running
answered-Reach =
    next (next (next opened-Reach (deliver 0 first refl)) (receive 0 first_answer refl refl))
      (generate hello (omega arith) (omega arith))

pub crashed-Reach : Reach (start numbered) crashed
unfolding running
crashed-Reach =
    next answered-Reach
      (restart 0 (checkpoint (start numbered).server) numbering 0 true true refl refl)

pub recovered-Reach : Reach (start numbered) recovered
unfolding running
recovered-Reach =
    next (next (next crashed-Reach (deliver 1 second refl)) (replay 1 signal refl refl))
      (ingest 0 (build_replay (delivered second crashed).client 0) refl (omega arith))
