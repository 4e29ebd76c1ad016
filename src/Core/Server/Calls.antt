-- ===== src/Core/Server/Calls.antt =====
-- color_server.cc: the record of calls, `app_calls_`.
use color.Prelude.{
  ℕ, zero, suc, ◌≡◌, inl, inr, Bool, List, [], ◌∷◌, leb, arith, All, Bool-cases, Option-cases,
  inc64, length, drop, subst, sym, ltb, ◌-◌, if◌then◌else◌,
}
use color.Dict.{lookup, insert, contains}
use color.Dict.Counts.{IsMap, insert-IsMap, All-values}
use color.Core.Message.{Seq, Request, Response, Hash}
use color.Core.History.{event_count}
use color.Core.Checkpoint.{BufferedResponse, Checkpoint, Replay, ReplayEvent}
use color.Core.Server.{
  App, Server, new_server, count_call, check_hash, write_request, process, commit, commit_loop,
  reprocess, answer_committed, stage, release_acked, track_bounds, needs_recover, on_request,
}
use color.Core.Server.Resume.{
  resumed_server, restore_buffer, ingest_event, ingest_events, ingest_replay,
}
use color.Core.Server.Agreement.{Agrees}

count_call-IsMap : (seq : Seq) (calls : List (Seq × ℕ)) → IsMap calls → IsMap (count_call seq calls)
unfolding count_call
count_call-IsMap seq calls v = insert-IsMap seq _ calls v

module _ {W : Type 0} where
  check_hash-calls :
      (s : Server W) (r : Request) (h : Hash) → (check_hash s r h).app_calls ≡ s.app_calls
  unfolding check_hash
  check_hash-calls s r h = ground arith

  commit-IsMap : (s : Server W) (r : Request) → IsMap s.app_calls → IsMap (commit s r).0.app_calls
  unfolding commit process write_request
  commit-IsMap s r v = count_call-IsMap r.seq _ (subst IsMap (sym (check_hash-calls _ r _)) v)

  commit_loop-IsMap :
      (fuel : ℕ) (s : Server W) (out : List Response)
      → IsMap s.app_calls
      → IsMap (commit_loop fuel s out).0.app_calls
  unfolding commit_loop
  commit_loop-IsMap zero s out v = v
  commit_loop-IsMap (suc fuel) s out v =
      elim (Option-cases (lookup (inc64 s.committed_upto) s.pending_reqs)) [
        | inl e ↦ rw (e, commit_loop) v
        | inr (r, e) ↦ rw (e, commit_loop) (commit_loop-IsMap fuel _ _ (commit-IsMap s r v))
      ]

  stage-IsMap : (s : Server W) (req : Request) → IsMap s.app_calls → IsMap (stage s req).0.app_calls
  unfolding stage
  stage-IsMap s req v =
      let pending = insert req.seq req s.pending_reqs in
      commit_loop-IsMap (suc (length pending)) (record s { pending_reqs = pending }) [] v

  answer_committed-IsMap :
      (s : Server W) (req : Request)
      → IsMap s.app_calls
      → IsMap (answer_committed s req).0.app_calls
  unfolding answer_committed reprocess
  answer_committed-IsMap s req v = elim (Option-cases (lookup req.seq s.resp_buffer)) [
    | inr (payload, e) ↦ rw (e, answer_committed) v
    | inl e ↦ elim (Bool-cases (contains req.seq s.awaiting)) [
      | inl owed ↦ rw (e, answer_committed) (rw owed (count_call-IsMap req.seq s.app_calls v))
      | inr done ↦ rw (e, answer_committed) (rw done v)
    ]
  ]

  pub on_request-IsMap :
      (s : Server W) (req : Request) → IsMap s.app_calls → IsMap (on_request s req).0.app_calls
  unfolding on_request release_acked track_bounds
  on_request-IsMap s req v = elim (Bool-cases (needs_recover s req)) [
    | inl lost ↦ rw (lost, on_request) v
    | inr fine ↦ elim (Bool-cases (leb req.seq s.committed_upto)) [
      | inl old ↦
          rw (fine, on_request) (rw old (answer_committed-IsMap (release_acked s req) req v))
      | inr fresh ↦ rw (fine, on_request) (rw fresh (stage-IsMap (release_acked s req) req v))
    ]
  ]

  ingest_event-calls : (s : Server W) (e : ReplayEvent) → (ingest_event s e).app_calls ≡ s.app_calls
  unfolding ingest_event
  ingest_event-calls s e = ground arith

  ingest_events-IsMap :
      (s : Server W) (es : List ReplayEvent)
      → IsMap s.app_calls
      → IsMap (ingest_events s es).app_calls
  unfolding ingest_events
  ingest_events-IsMap s [] v = v
  ingest_events-IsMap s (e ∷ es) v =
      ingest_events-IsMap (ingest_event s e) es (subst IsMap (sym (ingest_event-calls s e)) v)

  pub ingest_replay-IsMap :
      (s : Server W) (rp : Replay) → IsMap s.app_calls → IsMap (ingest_replay s rp).app_calls
  unfolding ingest_replay
  ingest_replay-IsMap s rp v =
      let have = event_count s.history in
      let skip = if ltb rp.from have then have - rp.from else 0 in
      ingest_events-IsMap s (drop skip rp.events) v

  restore_buffer-IsMap :
      (bs : List BufferedResponse) (s : Server W)
      → IsMap s.app_calls
      → IsMap (restore_buffer bs s).app_calls
  unfolding restore_buffer
  restore_buffer-IsMap [] s v = v
  restore_buffer-IsMap (b ∷ bs) s v = restore_buffer-IsMap bs _ v

  pub resumed_server-IsMap :
      (cp : Checkpoint) (app : App W) (world : W) (on_mismatch set_hash : Bool)
      → IsMap (resumed_server cp app world on_mismatch set_hash).app_calls
  unfolding resumed_server new_server
  resumed_server-IsMap cp app world on_mismatch set_hash = restore_buffer-IsMap cp.buffer _ tt

  -- With the agreement of the server and the conversation: each entry is one call.
  pub called_once :
      {rs : List Request} (s : Server W)
      → Agrees rs s
      → IsMap s.app_calls
      → All (λ call. call.1 ≡ 1) s.app_calls
  called_once s v m = All-values (λ n. n ≡ 1) s.app_calls m (λ k n e. (v.once k n e).0)
