-- ===== src/Core/Server.antt =====
-- src/core/color_server.h and color_server.cc: the server state machine. The application is the
-- function that the server is built with, over a state `W` of its own; the mismatch callback is a
-- flag and the list of the calls made to it.
use color.Prelude.{
  ℕ, zero, suc, ◌+◌, ◌-◌, ◌≡◌, refl, Bool, true, false, not, ◌&&◌, ◌||◌, Option, none, some, List,
  [], ◌∷◌, ◌++◌, map, ltb, leb, ◌==◌, if◌then◌else◌, inc64, length, drop,
}
use color.Text.{Bytes}
use color.Dict.{lookup, insert, erase, contains, add, remove}
use color.Core.Message.{Seq, Hash, Request, Response, default_response}
use color.Core.History.{
  Event, History, empty_history, resumed_history, append, append_responses, event_count,
}
use color.Core.Checkpoint.{BufferedResponse, Checkpoint, Replay, ReplayEvent}
pub mod Resume
pub mod Agreement
pub mod Commit
mod Staging
pub mod Safety
pub mod Failover
pub mod Ingest
pub mod Recovery
pub mod Growth
pub mod Ordering
pub mod Retransmission
pub mod Owed
pub mod Gap
pub mod Plain
pub mod Unbroken
pub mod Progress
pub mod Served
pub mod Serving
pub mod Given
pub mod Calls

-- `AppFn`
abbrev pub App : Type 0 → Type 0
App W = W → Seq → Bytes → History → Bytes × W

pub record Server (W : Type 0) : Type 0 where
  pub app : App W
  pub world : W
  pub on_mismatch : Bool
  pub set_hash : Bool
  pub committed_upto : Seq
  pub pending_reqs : List (Seq × Request)
  pub req_hash : List (Seq × Hash)
  pub resp_buffer : List (Seq × Bytes)
  pub awaiting : List Seq
  pub app_calls : List (Seq × ℕ)
  pub history : History
  pub max_resp_buffer : ℕ
  pub max_pending : ℕ
  -- the calls of `on_mismatch_`
  pub mismatches : List (Seq × Hash × Hash)

-- `for (Seq i : req.ack_new) if (i > committed_upto_) return true`
unfoldable pub any_above : ℕ → List Seq → Bool
any_above n [] = false
any_above n (i ∷ acks) = ltb n i || any_above n acks

-- the first loop of `release_acked`
unfoldable pub drop_below {ℓ} : {V : Type ℓ} → ℕ → List (Seq × V) → List (Seq × V)
drop_below base [] = []
drop_below base ((k, v) ∷ m) =
    let rest = drop_below base m in if ltb k base then rest else (k, v) ∷ rest

-- the second
unfoldable pub erase_all {ℓ} : {V : Type ℓ} → List Seq → List (Seq × V) → List (Seq × V)
erase_all [] m = m
erase_all (i ∷ acks) m = erase_all acks (erase i m)

-- `++app_calls_[seq]`
unfoldable pub count_call : Seq → List (Seq × ℕ) → List (Seq × ℕ)
count_call seq calls = insert seq (elim (lookup seq calls) [ none ↦ 1 | some n ↦ n + 1 ]) calls

module _ {W : Type 0} where
  -- `ColorServer(app, set_hash)`
  unfoldable pub new_server : App W → W → Bool → Bool → Server W
  new_server app world on_mismatch set_hash = record {
    app = app;
    world = world;
    on_mismatch = on_mismatch;
    set_hash = set_hash;
    committed_upto = 0;
    pending_reqs = [];
    req_hash = [];
    resp_buffer = [];
    awaiting = [];
    app_calls = [];
    history = empty_history;
    max_resp_buffer = 0;
    max_pending = 0;
    mismatches = [];
  }

  unfoldable pub needs_recover : Server W → Request → Bool
  unfolding any_above
  needs_recover s req =
      ltb (inc64 s.committed_upto) req.ack_base || any_above s.committed_upto req.ack_new

  unfoldable pub make_response : Server W → Seq → Bytes → Bool → Response
  make_response s seq payload no_op = record default_response {
    seq = seq;
    payload = payload;
    no_op = no_op;
    hash = if s.set_hash then lookup seq s.req_hash else none;
  }

  unfoldable pub release_acked : Server W → Request → Server W
  unfolding drop_below erase_all
  release_acked s req = record s {
    resp_buffer = erase_all req.ack_new (drop_below req.ack_base s.resp_buffer);
  }

  unfoldable pub track_bounds : Server W → Server W
  track_bounds s = record s {
    max_resp_buffer =
        if ltb s.max_resp_buffer (length s.resp_buffer)
        then length s.resp_buffer
        else s.max_resp_buffer;
    max_pending =
        if ltb s.max_pending (length s.pending_reqs) then length s.pending_reqs else s.max_pending;
  }

  -- The call of the application: its response, and the server with the application's new state.
  unfoldable pub call_app : Server W → Seq → Bytes → Bytes × Server W
  call_app s seq payload =
      let (resp, world) = s.app s.world seq payload s.history in (resp, record s { world = world })

  -- `if (r.hash && set_hash_ && *r.hash != h && on_mismatch_) on_mismatch_(r.seq, *r.hash, h)`
  unfoldable pub check_hash : Server W → Request → Hash → Server W
  check_hash s r h = elim r.hash [
    | none ↦ s
    | some got ↦
        if s.set_hash && not (got == h) && s.on_mismatch
        then record s { mismatches = s.mismatches ++ (r.seq, got, h) ∷ [] }
        else s
  ]

  -- The first half of a round of the commit loop of `on_request`: take the request `r` that was
  -- found off the staging area and write it into the history.
  unfoldable pub write_request : Server W → Request → Server W × Hash
  write_request s r =
      let (history, h) =
        append (append_responses s.history r.ack_new)
          (record { is_response = false; seq = r.seq }) in
      (
        record s {
          pending_reqs = erase (inc64 s.committed_upto) s.pending_reqs;
          history = history;
          req_hash = insert r.seq h s.req_hash;
        },
        h,
      )

  -- The second half: count it, run the application, buffer the response and put it out.
  unfoldable pub process : Server W → Request → Server W × Response
  unfolding call_app
  process s r =
      let counted : Server W = record s {
        committed_upto = r.seq;
        app_calls = count_call r.seq s.app_calls;
      } in
      let (resp, called) = call_app counted r.seq r.payload in
      let done : Server W = record called { resp_buffer = insert r.seq resp called.resp_buffer } in
      (done, make_response done r.seq resp false)

  unfoldable pub commit : Server W → Request → Server W × Response
  commit s r = let (s₁, h) = write_request s r in process (check_hash s₁ r h) r

  -- The commit loop; `out` is what it has put out so far.
  unfoldable pub commit_loop : ℕ → Server W → List Response → Server W × List Response
  commit_loop zero s out = (s, out)
  commit_loop (suc fuel) s out = elim (lookup (inc64 s.committed_upto) s.pending_reqs) [
    | none ↦ (s, out)
    | some r ↦ commit_loop fuel (commit s r).0 (out ++ (commit s r).1 ∷ [])
  ]

  -- A seq that was replayed and never answered is processed now.
  unfoldable pub reprocess : Server W → Request → Server W × Response
  unfolding call_app
  reprocess s req =
      let (resp, called) = call_app s req.seq req.payload in
      let done : Server W = record called {
        resp_buffer = insert req.seq resp called.resp_buffer;
        awaiting = remove req.seq called.awaiting;
        app_calls = count_call req.seq called.app_calls;
      } in
      (done, make_response done req.seq resp false)

  -- Step 2 of `on_request`: a seq that is committed already.
  unfoldable pub answer_committed : Server W → Request → Server W × List Response
  answer_committed s req = elim (lookup req.seq s.resp_buffer) [
    | some payload ↦ (s, make_response s req.seq payload false ∷ [])
    | none ↦
        if contains req.seq s.awaiting
        then ((reprocess s req).0, (reprocess s req).1 ∷ [])
        else (s, make_response s req.seq [] true ∷ [])
  ]

  -- Step 3: stage the request and commit what is in order.
  unfoldable pub stage : Server W → Request → Server W × List Response
  unfolding commit_loop
  stage s req =
      let pending = insert req.seq req s.pending_reqs in
      commit_loop (suc (length pending)) (record s { pending_reqs = pending }) []

  -- The recovery signal of step 0.
  unfoldable pub recovery_signal : Server W → Request → Response
  recovery_signal s req = record default_response {
    seq = req.seq;
    recover = true;
    recover_from = event_count s.history;
  }

  abbrev pub tracked : Server W × List Response → Server W × List Response
  tracked r = (track_bounds r.0, r.1)

  -- `ColorServer::on_request`
  unfoldable pub on_request : Server W → Request → Server W × List Response
  unfolding needs_recover release_acked answer_committed stage track_bounds recovery_signal
  on_request s req =
      if needs_recover s req
      then (s, recovery_signal s req ∷ [])
      else let released = release_acked s req in
        if leb req.seq released.committed_upto
        then tracked (answer_committed released req)
        else tracked (stage released req)
