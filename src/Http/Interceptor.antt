-- ===== src/Http/Interceptor.antt =====
-- src/server/color_interceptor.h and color_interceptor.cc: the server core behind net_http. A request
-- object of net_http is its identity, what it returns for a header name, and its body; what is done
-- to the objects is a list, oldest first. The mutex makes each call one step. `file` is what stands
-- under `checkpoint_path`; it is replaced as a whole by the rename.
use color.Prelude.{
  ℕ, ◌+◌, Bool, true, false, not, ◌&&◌, ◌||◌, Option, none, some, List, [], ◌∷◌, ◌++◌, leb, ◌==◌,
  if◌then◌else◌, add64,
}
use color.Text.{Bytes, codes, to_string}
use color.Dict.{lookup, insert, erase}
use color.Core.Message.{Seq, Response}
use color.Core.Checkpoint.{Checkpoint, Replay, default_replay}
use color.Core.Server.{App, Server, new_server, on_request}
use color.Core.Server.Resume.{resumed_server, checkpoint, ingest_replay}
use color.Wire.Serialize.{checkpoint_json}
use color.Wire.Parse.{from_json_checkpoint, from_json_replay}
use color.Http.Headers.{parse}

-- `net_http::ServerRequestInterface`, as far as it is read.
pub record HttpRequest : Type 0 where
  pub object : ℕ
  pub header : Bytes → Bytes
  pub body : Bytes

-- The end of a request object: `Abort`, or a status with headers and a body.
pub data Ending : Type 0 where
  aborted : ℕ → Ending
  replied : ℕ → ℕ → List (Bytes × Bytes) → Bytes → Ending

-- The calls that `Register` makes of `net_http::HTTPServerInterface`: the interceptor, and the handler
-- that aborts a request.
pub data Registration : Type 0 where
  intercepts handles : Bytes → Registration

-- `Register`, with the calls made of the server before.
unfoldable pub register : Bytes → List Registration → List Registration
register uri calls = calls ++ (intercepts uri ∷ handles uri ∷ [])

pub record Interceptor (W : Type 0) : Type 0 where
  pub core : Server W
  pub set_hash : Bool
  pub checkpoint_path : Bytes
  pub checkpoint_every : ℕ
  pub commits_since_ckpt : ℕ
  pub restored : Bool
  -- whether `on_committed_` is set, and its calls
  pub on_committed : Bool
  pub committed : List (Seq × Bytes)
  pub pending : List (Seq × ℕ)
  pub endings : List Ending
  pub file : Option Bytes

-- A checkpoint is used when the reader returned true.
parsed : Option (Bool × Checkpoint) → Option Checkpoint
parsed none = none
parsed (some (false, cp)) = none
parsed (some (true, cp)) = some cp

-- `load_checkpoint`, for the content of the file if there is one.
unfoldable pub load_checkpoint : Bytes → Option Bytes → Option Checkpoint
unfolding parsed
load_checkpoint [] file = none
load_checkpoint (c ∷ path) none = none
load_checkpoint (c ∷ path) (some text) = parsed (from_json_checkpoint text)

-- `if (!x.empty())`
unfoldable pub is_empty : Bytes → Bool
is_empty [] = true
is_empty (c ∷ s) = false

replay_of : Option (Bool × Replay) → Replay
replay_of none = default_replay
replay_of (some (ok, rp)) = rp

module _ {W : Type 0} where
  -- The constructor. It passes no mismatch callback on.
  unfoldable pub new_interceptor : App W → W → Bool → Bytes → ℕ → Option Bytes → Interceptor W
  new_interceptor app world set_hash path every file =
      let loaded = load_checkpoint path file in
      record {
        core = elim loaded [
          | none ↦ new_server app world false set_hash
          | some cp ↦ resumed_server cp app world false set_hash
        ];
        set_hash = set_hash;
        checkpoint_path = path;
        checkpoint_every = every;
        commits_since_ckpt = 0;
        restored = elim loaded [ none ↦ false | some cp ↦ true ];
        on_committed = false;
        committed = [];
        pending = [];
        endings = [];
        file = file;
      }

  -- `on_committed` and `on_hash_mismatch`, called with a function.
  unfoldable pub set_on_committed : Interceptor W → Interceptor W
  set_on_committed t = record t { on_committed = true }

  unfoldable pub set_on_hash_mismatch : Interceptor W → Interceptor W
  set_on_hash_mismatch t = record t { core = record t.core { on_mismatch = true } }

  -- The headers that `Complete` sets.
  unfoldable pub response_headers : Interceptor W → Response → List (Bytes × Bytes)
  response_headers t resp =
      (codes "Color-Seq", to_string resp.seq)
      ∷ (elim resp.hash [
        | none ↦ []
        | some h ↦ if t.set_hash then (codes "Color-Hash", to_string h) ∷ [] else []
      ]
          ++ ((if resp.no_op then (codes "Color-No-Op", codes "1") ∷ [] else [])
              ++ (codes "Content-Type", codes "application/json") ∷ []))

  -- `Complete`
  unfoldable pub complete : Interceptor W → ℕ → Response → Interceptor W
  complete t object resp = record t {
    endings = t.endings ++ replied object 200 (response_headers t resp) resp.payload ∷ [];
  }

  -- The body of the loop over the responses, on a response whose request is held.
  unfoldable pub finish : Interceptor W → ℕ → Response → Interceptor W
  unfolding complete
  finish t object resp =
      let done : Interceptor W = complete t object resp in
      record done {
        pending = erase resp.seq done.pending;
        committed =
            if not resp.no_op && done.on_committed
            then done.committed ++ (resp.seq, resp.payload) ∷ []
            else done.committed;
      }

  -- The loop, with the count of the commits.
  unfoldable pub complete_all : Interceptor W → List Response → ℕ → Interceptor W × ℕ
  complete_all t [] n = (t, n)
  complete_all t (resp ∷ responses) n = elim (lookup resp.seq t.pending) [
    | none ↦ complete_all t responses n
    | some object ↦ complete_all (finish t object resp) responses (if resp.no_op then n else n + 1)
  ]

  -- `WriteCheckpoint`
  unfoldable pub write_checkpoint : Interceptor W → Interceptor W
  write_checkpoint t = record t { file = some (checkpoint_json (checkpoint t.core)) }

  -- `MaybeCheckpoint`
  unfoldable pub maybe_checkpoint : Interceptor W → ℕ → Interceptor W
  unfolding write_checkpoint
  maybe_checkpoint t committed =
      let since = add64 t.commits_since_ckpt committed in
      if is_empty t.checkpoint_path || t.checkpoint_every == 0
      then t
      else if leb t.checkpoint_every since
      then record (write_checkpoint t) { commits_since_ckpt = 0 }
      else record t { commits_since_ckpt = since }

  -- `OnReplay`, which ingests what was read whether or not the reader returned true.
  unfoldable pub on_replay : Interceptor W → HttpRequest → Interceptor W
  unfolding replay_of
  on_replay t req = record t {
    core = ingest_replay t.core (replay_of (from_json_replay req.body));
    endings =
        t.endings
        ++ replied req.object 200 ((codes "Content-Type", codes "application/json") ∷ []) [] ∷ [];
  }

  -- `if (old != pending_.end()) old->second->Abort(); pending_[creq.seq] = req;`
  unfoldable pub hold : Interceptor W → Seq → ℕ → Interceptor W
  hold t seq object = record t {
    endings = elim (lookup seq t.pending) [
      | none ↦ t.endings
      | some old ↦ t.endings ++ aborted old ∷ []
    ];
    pending = insert seq object t.pending;
  }

  -- The reply to a request that the core refuses.
  unfoldable pub refuse : Interceptor W → Seq → ℕ → ℕ → Interceptor W
  refuse t seq object from = record t {
    pending = erase seq t.pending;
    endings =
        t.endings
        ++ replied object 503 ((codes "Color-Recover", codes "from=" ++ to_string from) ∷ []) []
          ∷ [];
  }

  -- What follows the call of the core.
  unfoldable pub answer : Interceptor W → Seq → ℕ → List Response → Interceptor W
  answer t seq object [] = maybe_checkpoint t 0
  answer t seq object (resp ∷ []) =
      let (done, n) = complete_all t (resp ∷ []) 0 in
      if resp.recover then refuse t seq object resp.recover_from else maybe_checkpoint done n
  answer t seq object (resp ∷ resp' ∷ responses) =
      let (done, n) = complete_all t (resp ∷ resp' ∷ responses) 0 in maybe_checkpoint done n

  -- `OnRequest`
  unfoldable pub intercept : Interceptor W → HttpRequest → Interceptor W
  intercept t req =
      let creq = parse req.header req.body in
      let held = hold t creq.seq req.object in
      let (core, responses) = on_request held.core creq in
      if not (is_empty (req.header (codes "Color-Replay")))
      then on_replay t req
      else answer (record held { core = core }) creq.seq req.object responses
