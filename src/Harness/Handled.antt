-- ===== src/Harness/Handled.antt =====
-- fuzz_main.cpp: what the driver does for one request, as steps of System.
use color.Prelude.{
  ℕ, suc, ◌≡◌, refl, sym, ◌∙◌, inl, inr, true, some, List, [], ◌∷◌, ◌++◌, arith, length, get_elem?,
  get_elem?-append, get_elem?-last, append_assoc, All, All-mono, Bool-cases, subst,
}
use color.Core.Message.{Request, Response}
use color.Core.Checkpoint.{Replay}
use color.Core.History.{event_count}
use color.Core.Client.{build_replay}
use color.Core.Server.{Server, needs_recover, recovery_signal, on_request}
use color.Core.Server.Plain.{on_request-signal}
use color.System.{System, Setup, start, Reach, deliver, replay, ingest, next}
use color.Harness.Driver.{handle}
use color.Harness.Handshake.{replayed, ready, handle-Reach}

-- `m` stands somewhere in `ms`.
abbrev pub SentIn {ℓ} : {M : Type ℓ} → List M → M → Type ℓ
SentIn ms m = (i : ℕ) × (get_elem? ms i ≡ some m)

pub SentIn-append {ℓ} : {M : Type ℓ} (ms ns : List M) (m : M) → SentIn ms m → SentIn (ms ++ ns) m
SentIn-append ms ns m (i, e) = (i, get_elem?-append ms ns i e)

get_elem?-append_right {ℓ} :
    {M : Type ℓ} (ms ns : List M) (m : M) → SentIn ns m → SentIn (ms ++ ns) m
get_elem?-append_right [] ns m v = v
get_elem?-append_right (x ∷ ms) ns m v = let (i, e) = get_elem?-append_right ms ns m v in (suc i, e)

pub All-SentIn : {M : Type 0} (ms : List M) → All (SentIn ms) ms
All-SentIn [] = tt
All-SentIn (m ∷ ms) = ((0, refl), All-mono ms (λ n v. (suc v.0, v.1)) (All-SentIn ms))

All-SentIn_append : {M : Type 0} (ms ns : List M) → All (SentIn (ms ++ ns)) ns
All-SentIn_append ms ns = All-mono ns (get_elem?-append_right ms ns) (All-SentIn ns)

module _ {W : Type 0} (u : Setup W) {y : System W} (r : Reach (start u) y) where
  -- What is reached when the server of `y` is replaced by `server`, and messages have been added.
  abbrev Then : Server W → List Response → Type 0
  Then server out =
      (extra : List Response) × (replays : List Replay) × Reach (start u)
        (record y { server = server; responses = y.responses ++ extra; replays = replays })
      × All (SentIn (y.responses ++ extra)) out

  answered :
      (i : ℕ) (req : Request)
      → get_elem? y.requests i ≡ some req
      → Then (on_request y.server req).0 (on_request y.server req).1
  answered i req sent = (
    (on_request y.server req).1,
    y.replays,
    next r (deliver i req sent),
    All-SentIn_append y.responses (on_request y.server req).1,
  )

  replayed_answered :
      (i : ℕ) (req : Request)
      → get_elem? y.requests i ≡ some req
      → needs_recover y.server req ≡ true
      → let out = on_request (replayed y.client y.server) req in Then out.0 out.1
  unfolding replayed recovery_signal
  replayed_answered i req sent refused =
      let signal = recovery_signal y.server req in
      let asked : System W = record y { responses = y.responses ++ signal ∷ [] } in
      let r₁ : Reach (start u) asked =
        subst
          (λ (p : Server W × List Response).
            Reach (start u) (record y { server = p.0; responses = y.responses ++ p.1 }))
          (on_request-signal y.server req refused) (next r (deliver i req sent)) in
      let rp = build_replay y.client (event_count y.server.history) in
      let r₂ =
        next r₁ (replay (length y.responses) signal (get_elem?-last y.responses signal) refl) in
      let r₃ = next r₂ (
        ingest (length y.replays) rp (get_elem?-last y.replays rp)
          (unfold build_replay in omega arith)) in
      let out = (on_request (replayed y.client y.server) req).1 in
      (
        signal ∷ out,
        y.replays ++ rp ∷ [],
        subst
            (λ rs. Reach (start u) (record y {
              server = (on_request (replayed y.client y.server) req).0;
              responses = rs;
              replays = y.replays ++ rp ∷ [];
            }))
            (append_assoc y.responses (signal ∷ []) out) (next r₃ (deliver i req sent)),
        subst (λ rs. All (SentIn rs) out) (append_assoc y.responses (signal ∷ []) out)
            (All-SentIn_append (y.responses ++ signal ∷ []) out),
      )

  pub handled :
      (i : ℕ) (req : Request)
      → get_elem? y.requests i ≡ some req
      → Then (handle y.client y.server req).0 (handle y.client y.server req).1
  unfolding ready
  handled i req sent =
      let same = (handle-Reach u r i req sent).0 in
      elim (Bool-cases (needs_recover y.server req)) [
        | inl refused ↦
            subst (λ (p : Server W × List Response). Then p.0 p.1)
              (sym (same ∙ rw (refused, ready) refl)) (replayed_answered i req sent refused)
        | inr fine ↦
            subst (λ (p : Server W × List Response). Then p.0 p.1)
              (sym (same ∙ rw (fine, ready) refl)) (answered i req sent)
      ]
