-- ===== src/Core/Server/Recovery.antt =====
-- color_server.cc, `ingest_replay`: a replay of a conversation from a position that was reached.
use color.Prelude.{
  ℕ, ◌+◌, ◌-◌, ◌≤◌, ◌≡◌, ap, sym, ◌∙◌, inl, inr, List, map, arith, length, if◌then◌else◌,
  Bool-cases, leb, ltb, drop, take, drop_all, map-drop, drop-drop-length, get_elem?-drop,
  get_elem?-take, length-take_le, length-drop, leb→le, not_leb→lt,
}
use color.Core.Message.{Request}
use color.Core.History.{event_count}
use color.Core.Transcript.{transcript, upto, length-upto_mono, upto-split}
use color.Core.Checkpoint.{Replay}
use color.Core.Server.{Server}
use color.Core.Server.Resume.{ingest_replay}
use color.Core.Server.Agreement.{IsConversation, Agrees}
use color.Core.Server.Failover.{event_count-Agrees}
use color.Core.Server.Ingest.{
  event_of, ingest, ingest_nothing, ingest_events-ingest, ingest-transcript-Agrees,
}

-- A replay of the history up to request `k`, from its own position on.
abbrev pub IsReplayUpto : List Request → ℕ → Replay → Type 0
IsReplayUpto rs k rp = map event_of rp.events ≡ drop rp.from (upto rs k)

module _ {W : Type 0} {rs : List Request} (conv : IsConversation rs) where
  -- What `ingest_replay` ingests.
  ingest_replay-ingest :
      (s : Server W) (k : ℕ) (rp : Replay)
      → IsReplayUpto rs k rp
      → rp.from ≤ event_count s.history
      → ingest_replay s rp
        ≡ ingest s (drop (event_count s.history - rp.from) (drop rp.from (upto rs k)))
  unfolding ingest_replay
  ingest_replay-ingest s k rp replayed reached =
      let skip : ℕ =
        if ltb rp.from (event_count s.history) then event_count s.history - rp.from else 0 in
      let skipped : skip ≡ event_count s.history - rp.from = ground arith in
      ingest_events-ingest s (drop skip rp.events)
      ∙ ap (ingest s) (
          map-drop event_of skip rp.events
          ∙ ap (drop skip) replayed
          ∙ ap (λ n. drop n (drop rp.from (upto rs k))) skipped)

  -- A replay up to request `k`, from a position that the server has reached, brings the server up
  -- to request `k`; a server that is there already is left as it is.
  pub ingest_replay-Agrees :
      (s : Server W) (k : ℕ) (rp : Replay)
      → k ≤ length rs
      → IsReplayUpto rs k rp
      → rp.from ≤ event_count s.history
      → Agrees rs s
      → Agrees rs (ingest_replay s rp)
        × (s.committed_upto ≤ (ingest_replay s rp).committed_upto)
        × (k ≤ (ingest_replay s rp).committed_upto)
  ingest_replay-Agrees s k rp bound replayed reached v =
      rw (ingest_replay-ingest s k rp replayed reached)
        (elim (Bool-cases (leb s.committed_upto k)) [
          | inl ahead ↦
              let ahead' = leb→le s.committed_upto k ahead in
              let (after, total) =
                ingest-transcript-Agrees conv (drop s.committed_upto (take k rs)) s
                  (λ i r e.
                    get_elem?-take k (s.committed_upto + i) rs
                      (sym (get_elem?-drop s.committed_upto i (take k rs)) ∙ e))
                  v in
              let size = length-take_le k rs bound in
              let rest = length-drop s.committed_upto (take k rs) in
              rw
                (
                  upto-split rs s.committed_upto k ahead',
                  count,
                  drop-drop-length rp.from (upto rs s.committed_upto)
                      (transcript (drop s.committed_upto (take k rs))) (omega (arith, count)),
                )
                (after, omega arith, omega arith)
          | inr beyond ↦
              let behind = not_leb→lt s.committed_upto k beyond in
              let shorter = length-upto_mono rs k s.committed_upto (omega arith) in
              let gone : length (drop rp.from (upto rs k)) ≤ event_count s.history - rp.from =
                omega (arith, count, length-drop rp.from (upto rs k)) in
              rw
                (
                  drop_all (event_count s.history - rp.from) (drop rp.from (upto rs k)) gone,
                  ingest_nothing s,
                )
                (v, omega arith, omega arith)
        ])
    where
      count : event_count s.history ≡ length (upto rs s.committed_upto)
      count = event_count-Agrees conv s v
