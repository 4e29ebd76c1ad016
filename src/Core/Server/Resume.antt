-- ===== src/Core/Server/Resume.antt =====
-- src/core/color_server.cc: what a failover asks of the server: the checkpoint, the server that is
-- made from one, and `ingest_replay`.
use color.Prelude.{◌-◌, Bool, none, some, List, [], ◌∷◌, map, ltb, if◌then◌else◌, drop}
use color.Text.{Bytes}
use color.Dict.{lookup, insert, erase, add, remove}
use color.Core.Message.{Seq}
use color.Core.History.{resumed_history, append, event_count}
use color.Core.Checkpoint.{BufferedResponse, Checkpoint, Replay, ReplayEvent}
use color.Core.Server.{App, Server, new_server}

module _ {W : Type 0} where
  -- The loop of the constructor from a checkpoint.
  unfoldable pub restore_buffer : List BufferedResponse → Server W → Server W
  restore_buffer [] s = s
  restore_buffer (b ∷ bs) s = restore_buffer bs (record s {
    resp_buffer = insert b.seq b.payload s.resp_buffer;
    req_hash = insert b.seq b.hash s.req_hash;
  })

  -- `ColorServer(cp, app, set_hash)`
  unfoldable pub resumed_server : Checkpoint → App W → W → Bool → Bool → Server W
  unfolding restore_buffer new_server
  resumed_server cp app world on_mismatch set_hash =
      restore_buffer cp.buffer (record (new_server app world on_mismatch set_hash) {
        committed_upto = cp.committed_upto;
        history = resumed_history cp.history_hash cp.event_count;
      })

  -- One entry of `cp.buffer`.
  unfoldable pub buffered : Server W → Seq × Bytes → BufferedResponse
  buffered s (seq, payload) = record {
    seq = seq;
    payload = payload;
    hash = elim (lookup seq s.req_hash) [ none ↦ 0 | some h ↦ h ];
  }

  -- `ColorServer::checkpoint`
  unfoldable pub checkpoint : Server W → Checkpoint
  unfolding buffered
  checkpoint s = record {
    committed_upto = s.committed_upto;
    event_count = event_count s.history;
    history_hash = s.history.cur_hash;
    buffer = map (buffered s) s.resp_buffer;
  }

  -- One round of `ingest_replay`.
  unfoldable pub ingest_event : Server W → ReplayEvent → Server W
  unfolding append
  ingest_event s e =
      let (history, h) = append s.history (record { is_response = e.is_response; seq = e.seq }) in
      if e.is_response
      then record s {
        history = history;
        awaiting = remove e.seq s.awaiting;
        resp_buffer = erase e.seq s.resp_buffer;
      }
      else record s {
        history = history;
        req_hash = insert e.seq h s.req_hash;
        committed_upto = if ltb s.committed_upto e.seq then e.seq else s.committed_upto;
        awaiting = add e.seq s.awaiting;
      }

  unfoldable pub ingest_events : Server W → List ReplayEvent → Server W
  unfolding ingest_event
  ingest_events s [] = s
  ingest_events s (e ∷ es) = ingest_events (ingest_event s e) es

  -- `ColorServer::ingest_replay`
  unfoldable pub ingest_replay : Server W → Replay → Server W
  unfolding ingest_events
  ingest_replay s rp =
      let have = event_count s.history in
      let skip = if ltb rp.from have then have - rp.from else 0 in
      ingest_events s (drop skip rp.events)
