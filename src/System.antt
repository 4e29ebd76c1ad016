-- ===== src/System.antt =====
-- The client and the server of src/core over an unreliable network, with failovers: the world that
-- verification/src/fuzz_main.cpp samples. What was once sent may be delivered at any time, in any
-- order, any number of times or never, so a network is the list of what was sent.
use color.Prelude.{
  ℕ, ◌+◌, ◌≤◌, ◌<◌, ◌≡◌, Bool, true, false, some, List, [], ◌∷◌, ◌++◌, length, get_elem?, u64_mod,
}
use color.Text.{Bytes}
use color.Core.Message.{Request, Response}
use color.Core.History.{event_count}
use color.Core.Checkpoint.{Checkpoint, Replay}
use color.Core.Transcript.{transcript}
use color.Core.Client.{Client, new_client, generate_request, on_response, build_replay}
use color.Core.Server.{App, Server, new_server, on_request}
use color.Core.Server.Resume.{resumed_server, checkpoint, ingest_replay}
pub mod Safety
pub mod Histories
pub mod Recovery
pub mod Delivery
pub mod Outstanding
pub mod Requests
pub mod Calls
pub mod Steady
pub mod Progress

pub record System (W : Type 0) : Type 0 where
  pub client : Client
  pub server : Server W
  -- every request sent (a retransmission is a copy), every response, checkpoint and replay
  pub requests : List Request
  pub responses : List Response
  pub checkpoints : List Checkpoint
  pub replays : List Replay
  -- whether the server may be replaced
  pub failing : Bool

-- The application, and the flags that the two sides are constructed with.
pub record Setup (W : Type 0) : Type 0 where
  pub app : App W
  pub world : W
  pub server_mismatch : Bool
  pub server_hash : Bool
  pub client_deliver : Bool
  pub client_mismatch : Bool
  pub client_hash : Bool
  -- whether the conversation may see failovers
  pub failing : Bool

-- A new client and a new server, whose state is the first checkpoint.
unfoldable pub start : {W : Type 0} → Setup W → System W
start u =
    let server = new_server u.app u.world u.server_mismatch u.server_hash in
    record {
      client = new_client u.client_deliver u.client_mismatch u.client_hash;
      server = server;
      requests = [];
      responses = [];
      checkpoints = checkpoint server ∷ [];
      replays = [];
      failing = u.failing;
    }

-- What can happen. The premises of `generate` say that ids and event counts stay below 2^64; that of
-- `ingest` says that the server has reached the position from which the replay was asked for. By
-- `pass` the application's own state changes between two calls, as a clock does.
pub data Step {W : Type 0} (y : System W) : System W → Type 0 where
  generate :
      (payload : Bytes)
      → length y.requests + 2 < u64_mod
      → length (transcript (y.requests ++ (generate_request y.client payload).1 ∷ [])) < u64_mod
      → Step y (record y {
        client = (generate_request y.client payload).0;
        requests = y.requests ++ (generate_request y.client payload).1 ∷ [];
      })
  deliver :
      (i : ℕ) (req : Request)
      → get_elem? y.requests i ≡ some req
      → Step y (record y {
        server = (on_request y.server req).0;
        responses = y.responses ++ (on_request y.server req).1;
      })
  receive :
      (i : ℕ) (resp : Response)
      → get_elem? y.responses i ≡ some resp
      → resp.recover ≡ false
      → Step y (record y { client = (on_response y.client resp).0 })
  save : Step y (record y { checkpoints = y.checkpoints ++ checkpoint y.server ∷ [] })
  restart :
      (i : ℕ) (cp : Checkpoint) (app : App W) (world : W) (on_mismatch set_hash : Bool)
      → get_elem? y.checkpoints i ≡ some cp
      → y.failing ≡ true
      → Step y (record y { server = resumed_server cp app world on_mismatch set_hash })
  replay :
      (i : ℕ) (resp : Response)
      → get_elem? y.responses i ≡ some resp
      → resp.recover ≡ true
      → Step y (record y { replays = y.replays ++ build_replay y.client resp.recover_from ∷ [] })
  pass : (world : W) → Step y (record y { server = record y.server { world = world } })
  ingest :
      (i : ℕ) (rp : Replay)
      → get_elem? y.replays i ≡ some rp
      → rp.from ≤ event_count y.server.history
      → Step y (record y { server = ingest_replay y.server rp })

pub data Reach {W : Type 0} (y : System W) : System W → Type 0 where
  here : Reach y y
  next : {z w : System W} → Reach y z → Step z w → Reach y w
