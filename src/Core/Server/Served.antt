-- ===== src/Core/Server/Served.antt =====
-- color_server.cc, `on_request`: responses, and the calls of the application that they come from.
use color.Prelude.{
  ℕ, suc, ◌+◌, ◌≡◌, ap, sym, ◌∙◌, none, some, List, [], ◌∷◌, ◌++◌, arith, length, get_elem?, subst,
}
use color.Dict.{lookup, insert}
use color.Core.Message.{Seq, Request, Response}
use color.Core.History.{History}
use color.Core.History.Prefix.{IsHistoryOf}
use color.Core.Transcript.{upto}
use color.Core.Server.{App}

-- `out` are the responses to the requests that follow number `n`, from an application in state `w`
-- and a record `calls` of its calls: for each, the application is called once, with this request and
-- the history up to it, and had not been called for it before; it is left in the state `w'`, and the
-- record as `calls'`.
abbrev pub Served :
    {W : Type 0}
    → List Request
    → App W
    → ℕ
    → W
    → List (Seq × ℕ)
    → List Response
    → W
    → List (Seq × ℕ)
    → Type 0
Served rs app n w calls [] w' calls' = (w ≡ w') × (calls ≡ calls')
Served rs app n w calls (resp ∷ out) w' calls' =
    (r : Request) × (h : History) × (get_elem? rs n ≡ some r)
    × IsHistoryOf h (upto rs (suc n))
    × (resp.seq ≡ suc n)
    × (resp.payload ≡ (app w (suc n) r.payload h).0)
    × (lookup (suc n) calls ≡ none)
    × Served rs app (suc n) (app w (suc n) r.payload h).1 (insert (suc n) 1 calls) out w' calls'

module _ {W : Type 0} (rs : List Request) (app : App W) where
  pub Served-append :
      (n : ℕ) (w : W) (calls : List (Seq × ℕ)) (out : List Response) (resp : Response) (w₁ : W)
      (calls₁ : List (Seq × ℕ)) (r : Request) (h : History)
      → Served rs app n w calls out w₁ calls₁
      → let m = n + length out in
        get_elem? rs m ≡ some r
        → IsHistoryOf h (upto rs (suc m))
        → resp.seq ≡ suc m
        → resp.payload ≡ (app w₁ (suc m) r.payload h).0
        → lookup (suc m) calls₁ ≡ none
        → Served rs app n w calls
            (out ++ resp ∷ [])
            (app w₁ (suc m) r.payload h).1
            (insert (suc m) 1 calls₁)
  Served-append n w calls [] resp w₁ calls₁ r h (same, counted) here whole numbered answer fresh =
      let e : n + 0 ≡ n = omega arith in
      (
        r,
        h,
        subst (λ k. get_elem? rs k ≡ some r) e here,
        subst (λ k. IsHistoryOf h (upto rs (suc k))) e whole,
        numbered ∙ ap suc e,
        answer
            ∙ ap (λ k. (app w₁ (suc k) r.payload h).0) e
            ∙ ap (λ v. (app v (suc n) r.payload h).0) (sym same),
        ap (lookup (suc n)) counted ∙ subst (λ k. lookup (suc k) calls₁ ≡ none) e fresh,
        (
          ap (λ v. (app v (suc n) r.payload h).1) same
              ∙ ap (λ k. (app w₁ (suc k) r.payload h).1) (sym e),
          ap (insert (suc n) 1) counted ∙ ap (λ k. insert (suc k) 1 calls₁) (sym e),
        ),
      )
  Served-append n w calls (first ∷ out) resp w₁ calls₁ r h
        (q, g, before, past, seq, payload, new, rest) here whole numbered answer fresh =
      let e : n + suc (length out) ≡ suc n + length out = omega arith in
      (
        q,
        g,
        before,
        past,
        seq,
        payload,
        new,
        subst
            (λ m.
              Served rs app (suc n) (app w (suc n) q.payload g).1 (insert (suc n) 1 calls)
                (out ++ resp ∷ []) (app w₁ (suc m) r.payload h).1 (insert (suc m) 1 calls₁))
            (sym e)
            (Served-append (suc n) _ _ out resp w₁ calls₁ r h rest
              (subst (λ m. get_elem? rs m ≡ some r) e here)
              (subst (λ m. IsHistoryOf h (upto rs (suc m))) e whole) (numbered ∙ ap suc e)
              (answer ∙ ap (λ m. (app w₁ (suc m) r.payload h).0) e)
              (subst (λ m. lookup (suc m) calls₁ ≡ none) e fresh)),
      )
