-- ===== src/Harness/Handshake.antt =====
-- fuzz_main.cpp: the recovery round trip that the driver makes for a request that the server refuses.
use color.Prelude.{
  ℕ, suc, ◌≡◌, refl, ap, sym, ◌∙◌, inl, inr, true, false, none, some, List, [], ◌∷◌, if◌then◌else◌,
  get_elem?, All, All-get_elem?, Bool-cases, subst,
}
use color.Core.Message.{Request, Response}
use color.Core.History.{event_count}
use color.Core.Client.{Client, build_replay}
use color.Core.Server.{Server, needs_recover, recovery_signal, on_request}
use color.Core.Server.Resume.{ingest_replay}
use color.Core.Server.Plain.{IsPlain, on_request-IsPlain, on_request-signal}
use color.System.{System, Setup, start, Reach}
use color.System.Recovery.{ingest_replay-build_replay}
use color.Harness.Driver.{signalled, recover_loop, handle}

signalled-IsPlain : (out : List Response) → All IsPlain out → signalled out ≡ none
unfolding signalled
signalled-IsPlain [] v = refl
signalled-IsPlain (resp ∷ []) v = rw (v.0, signalled)
signalled-IsPlain (resp ∷ next ∷ out) v = refl

module _ {W : Type 0} where
  recover_loop-IsPlain :
      (guard : ℕ) (client : Client) (req : Request) (r : Server W × List Response)
      → All IsPlain r.1
      → recover_loop (suc guard) client req r ≡ r
  unfolding recover_loop
  recover_loop-IsPlain guard client req r v = rw (signalled-IsPlain r.1 v, recover_loop)

  signalled-recovery_signal :
      (s : Server W) (req : Request)
      → signalled (recovery_signal s req ∷ []) ≡ some (event_count s.history)
  unfolding signalled recovery_signal
  signalled-recovery_signal s req = refl

  handle-accepted :
      (client : Client) (s : Server W) (req : Request)
      → needs_recover s req ≡ false
      → handle client s req ≡ on_request s req
  unfolding handle
  handle-accepted client s req h = recover_loop-IsPlain 7 client req _ (on_request-IsPlain s req h)

  -- The server after the replay that it asked for.
  unfoldable pub replayed : Client → Server W → Server W
  replayed client s = ingest_replay s (build_replay client (event_count s.history))

  recover_loop-signalled :
      (guard : ℕ) (client : Client) (req : Request) (r : Server W × List Response) {from : ℕ}
      → signalled r.1 ≡ some from
      → recover_loop (suc guard) client req r
        ≡ recover_loop guard client req
            (on_request (ingest_replay r.0 (build_replay client from)) req)
  unfolding recover_loop
  recover_loop-signalled guard client req r e = rw (e, recover_loop)

  handle-refused :
      (client : Client) (s : Server W) (req : Request)
      → needs_recover s req ≡ true
      → needs_recover (replayed client s) req ≡ false
      → handle client s req ≡ on_request (replayed client s) req
  unfolding handle replayed
  handle-refused client s req h accepted =
      ap (recover_loop 8 client req) (on_request-signal s req h)
      ∙ recover_loop-signalled 7 client req _ (signalled-recovery_signal s req)
      ∙ recover_loop-IsPlain 6 client req _ (on_request-IsPlain (replayed client s) req accepted)

  -- The server that answers the request in the end.
  unfoldable pub ready : Client → Server W → Request → Server W
  unfolding replayed
  ready client s req = if needs_recover s req then replayed client s else s

  pub handle-ready :
      (client : Client) (server : Server W) (req : Request)
      → needs_recover (replayed client server) req ≡ false
      → let s = ready client server req in
        (handle client server req ≡ on_request s req) × (needs_recover s req ≡ false)
  unfolding ready
  handle-ready client server req accepted = elim (Bool-cases (needs_recover server req)) [
    | inl refused ↦
        rw (refused, ready) (handle-refused client server req refused accepted, accepted)
    | inr fine ↦ rw (fine, ready) (handle-accepted client server req fine, fine)
  ]

module _ {W : Type 0} (u : Setup W) {y : System W} (r : Reach (start u) y) where
  -- At any moment of a conversation, the driver's handling of a request that was sent comes to
  -- `on_request` on a server that does not refuse it: the one that is there, or, if that refuses, the
  -- same after one replay of the client's history. So the bound of eight rounds is never reached,
  -- and no recovery signal is left among the responses.
  pub handle-Reach :
      (i : ℕ) (req : Request)
      → get_elem? y.requests i ≡ some req
      → let s = ready y.client y.server req in
        (handle y.client y.server req ≡ on_request s req)
        × (needs_recover s req ≡ false)
        × All IsPlain (handle y.client y.server req).1
  handle-Reach i req sent =
      let (_, _, _, all) = ingest_replay-build_replay u r in
      let (same, fine) = handle-ready y.client y.server req (
        All-get_elem? (λ q. needs_recover (replayed y.client y.server) q ≡ false) y.requests i
          (unfold replayed in all) sent) in
      (
        same,
        fine,
        subst (λ (p : Server W × List Response). All IsPlain p.1) (sym same)
            (on_request-IsPlain (ready y.client y.server req) req fine),
      )
