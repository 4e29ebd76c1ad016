-- ===== src/Core/Server/Gap.antt =====
-- color_server.cc, `ingest_replay`: a replay that starts behind the end of the server's history.
use color.Prelude.{
  ◌+◌, ◌-◌, ◌<◌, ◌≡◌, refl, inl, inr, true, false, List, [], ◌∷◌, if◌then◌else◌, length, arith, ltb,
  Bool-cases, length-append, add64-eq, u64_mod,
}
use color.Core.History.{append, event_count}
use color.Core.Checkpoint.{ReplayEvent, Replay}
use color.Core.Server.{Server}
use color.Core.Server.Resume.{ingest_event, ingest_events, ingest_replay}

module _ {W : Type 0} where
  ingest_event-length :
      (s : Server W) (e : ReplayEvent)
      → ((ingest_event s e).history.base_count ≡ s.history.base_count)
        × (length (ingest_event s e).history.events ≡ length s.history.events + 1)
  unfolding ingest_event append
  ingest_event-length s e = elim (Bool-cases e.is_response) [
    | inl h ↦
        rw (h, ingest_event)
          (
            refl,
            omega (
              arith,
              length-append s.history.events (record { is_response = true; seq = e.seq } ∷ []),
            ),
          )
    | inr h ↦
        rw (h, ingest_event)
          (
            refl,
            omega (
              arith,
              length-append s.history.events (record { is_response = false; seq = e.seq } ∷ []),
            ),
          )
  ]

  ingest_events-length :
      (es : List ReplayEvent) (s : Server W)
      → ((ingest_events s es).history.base_count ≡ s.history.base_count)
        × (length (ingest_events s es).history.events ≡ length s.history.events + length es)
  unfolding ingest_events
  ingest_events-length [] s = (refl, omega arith)
  ingest_events-length (e ∷ es) s =
      let (base, more) = ingest_events-length es (ingest_event s e) in
      let (base', one) = ingest_event-length s e in
      (omega (arith, base, base'), omega (arith, more, one))

  -- A replay that starts behind the end of the server's history is appended to this end: while the
  -- counts stay below 2^64, the server's event count is then short, by the gap, of the position that
  -- the end of the replay has.
  pub event_count-ingest_replay :
      (s : Server W) (rp : Replay)
      → event_count s.history < rp.from
      → s.history.base_count + length s.history.events + length rp.events < u64_mod
      → event_count (ingest_replay s rp).history + (rp.from - event_count s.history)
        ≡ rp.from + length rp.events
  unfolding ingest_replay event_count
  event_count-ingest_replay s rp gap room =
      let skip : (if ltb rp.from (event_count s.history)
            then event_count s.history - rp.from
            else 0)
          ≡ 0 =
        ground arith in
      let (base, more) = ingest_events-length rp.events s in
      let after = (ingest_events s rp.events).history in
      let count_before = add64-eq s.history.base_count (length s.history.events) (omega arith) in
      let count_after =
        add64-eq after.base_count (length after.events) (omega (arith, base, more)) in
      rw skip (omega (arith, base, more, count_before, count_after, gap))
