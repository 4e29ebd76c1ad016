-- ===== src/Http/Curl.antt =====
-- src/client/curl_transport.h and curl_transport.cc: one POST, with the losses that it injects.
-- libcurl is a parameter: what a transfer hands to the two callbacks, and how it ends. So are the
-- generator and the probabilities.
use Prim.Native.Nat.{bit_xor}
use color.Prelude.{
  ℕ, ◌*◌, ◌%◌, ◌≡◌, ◌≢◌, ◌↔◌, refl, Bool, true, false, List, [], ◌∷◌, ◌++◌, if◌then◌else◌, arith,
  u64_mod, inc64, inl, inr, ◌⊎◌,
}
use color.Text.{Bytes, codes}
use color.Http.Sender.{HttpResult}
use color.Http.Lines.{write_header}

-- `Injected`
pub data Injected : Type 0 where
  drop_request drop_response none : Injected

-- What a transfer is asked to do.
pub record Transfer : Type 0 where
  pub url : Bytes
  pub lines : List Bytes
  pub content : Bytes
  pub timeout_ms : ℕ

-- How `curl_easy_perform` ended, what `CURLINFO_RESPONSE_CODE` then is, and the calls that it made of
-- the header and the body function.
pub record Transferred : Type 0 where
  pub is_ok : Bool
  pub code : ℕ
  pub header_lines : List Bytes
  pub chunks : List Bytes

-- libcurl over a state `X` of the world: whether `curl_easy_init` finds a handle, and a transfer.
pub record Curl (X : Type 0) : Type 0 where
  pub init : X → Bool × X
  pub perform : Transfer → X → Transferred × X

pub record CurlTransport (P : Type 0) : Type 0 where
  pub p_drop_request : P
  pub p_drop_response : P
  pub seed : ℕ
  pub timeout_ms : ℕ

-- The seed of a thread's generator; `count` threads have had theirs before.
unfoldable pub thread_seed : ℕ → ℕ → ℕ
thread_seed seed count = bit_xor seed (0x9e3779b97f4a7c15 * inc64 count % u64_mod)

-- `write_body`
unfoldable pub write_body : Bytes → Bytes → Bytes
write_body ptr out = out ++ ptr

-- The calls that a transfer makes of the two callbacks.
unfoldable pub write_headers : List Bytes → List (Bytes × Bytes) → List (Bytes × Bytes)
write_headers [] headers = headers
write_headers (line ∷ lines) headers = write_headers lines (write_header line headers)

unfoldable pub write_chunks : List Bytes → Bytes → Bytes
unfolding write_body
write_chunks [] out = out
write_chunks (chunk ∷ chunks) out = write_chunks chunks (write_body chunk out)

-- `HttpResult res;`
abbrev pub no_result : HttpResult
no_result = record { delivered = false; status = 0; headers = []; body = [] }

-- `CurlTransport::roll`, on the outcomes of its draws; the second is made only if the first fails.
unfoldable pub roll : {G P : Type 0} → (P → G → Bool × G) → CurlTransport P → G → Injected × G
roll chance t g =
    let (request, g₁) = chance t.p_drop_request g in
    let (response, g₂) = chance t.p_drop_response g₁ in
    if request then (drop_request, g₁) else if response then (drop_response, g₂) else (none, g₂)

-- What `res` is after the transfer.
unfoldable pub filled : Transferred → HttpResult
unfolding write_headers write_chunks
filled end = record {
  delivered = false;
  status = if end.is_ok then end.code else 0;
  headers = write_headers end.header_lines [];
  body = write_chunks end.chunks [];
}

-- The end of `post`.
unfoldable pub concluded : Injected → Transferred → HttpResult
unfolding filled
concluded drop_request end = no_result
concluded drop_response end = if end.is_ok then no_result else filled end
concluded none end = if end.is_ok then record (filled end) { delivered = true } else filled end

module _ {X P : Type 0} (curl : Curl X) (t : CurlTransport P) where
  -- `CurlTransport::post`, once `roll` has been drawn: the result, and the world after it.
  unfoldable pub exchange : Injected → Bytes → List Bytes → Bytes → X → HttpResult × X
  unfolding concluded
  exchange inj url lines body x =
      let (found, x₁) = curl.init x in
      let (end, x₂) =
        curl.perform
          (record {
            url = url;
            lines = lines ++ codes "Expect:" ∷ [];
            content = body;
            timeout_ms = t.timeout_ms;
          })
          x₁ in
      elim inj [
        | drop_request ↦ (no_result, x)
        | drop_response ↦ if found then (concluded drop_response end, x₂) else (no_result, x₁)
        | none ↦ if found then (concluded none end, x₂) else (no_result, x₁)
      ]

  unfoldable pub post :
      {G : Type 0}
      → (P → G → Bool × G)
      → G
      → Bytes
      → List Bytes
      → Bytes
      → X
      → HttpResult × Injected × G × X
  post chance g url lines body x =
      let (inj, g') = roll chance t g in
      let (res, x') = exchange inj url lines body x in (res, inj, g', x')

-- How the transfer ends that an exchange would make.
abbrev pub ending :
    {X P : Type 0} → Curl X → CurlTransport P → Bytes → List Bytes → Bytes → X → Transferred
ending curl t url lines body x =
    (curl.perform
      (record {
        url = url;
        lines = lines ++ codes "Expect:" ∷ [];
        content = body;
        timeout_ms = t.timeout_ms;
      })
      (curl.init x).1).0

module _ {X P : Type 0} (curl : Curl X) (t : CurlTransport P) where
  exchange-delivered :
      (inj : Injected) (url : Bytes) (lines : List Bytes) (body : Bytes) (x : X)
      → let res = (exchange curl t inj url lines body x).0 in
        ((res.delivered ≡ true) ↔ (
          (inj ≡ none)
          × ((curl.init x).0 ≡ true)
          × ((ending curl t url lines body x).is_ok ≡ true)))
        × ((res.status ≡ 0) ⊎ ((ending curl t url lines body x).is_ok ≡ true))
  unfolding exchange
  exchange-delivered drop_request url lines body x = (((λ h. cc), (λ h. cc)), inl refl)
  exchange-delivered drop_response url lines body x =
      (((λ h. absurd (ground arith)), (λ h. absurd (cc (h.0)))), ground arith)
  exchange-delivered none url lines body x =
      (((λ h. (refl, ground arith, ground arith)), (λ h. ground (arith, h.1, h.2))), ground arith)

  exchange-world :
      (inj : Injected) (url : Bytes) (lines : List Bytes) (body : Bytes) (x : X)
      → (inj ≢ drop_request) ⊎ ((exchange curl t inj url lines body x).1 ≡ x)
  unfolding exchange
  exchange-world drop_request url lines body x = inr refl
  exchange-world drop_response url lines body x = inl (λ h. cc)
  exchange-world none url lines body x = inl (λ h. cc)

module _ {G X P : Type 0} (curl : Curl X) (t : CurlTransport P) where
  -- Whatever is drawn: the result of a POST counts as delivered exactly if nothing is dropped, a
  -- handle is found and the transfer ends well, so that every other attempt is repeated; the status
  -- is 0 unless the transfer ended well; and a request that is dropped leaves the world untouched.
  pub post-delivered :
      (chance : P → G → Bool × G) (g : G) (url : Bytes) (lines : List Bytes) (body : Bytes) (x : X)
      → let (res, inj, _, x') = post curl t chance g url lines body x in
        ((res.delivered ≡ true) ↔ (
          (inj ≡ none)
          × ((curl.init x).0 ≡ true)
          × ((ending curl t url lines body x).is_ok ≡ true)))
        × ((res.status ≡ 0) ⊎ ((ending curl t url lines body x).is_ok ≡ true))
        × ((inj ≢ drop_request) ⊎ (x' ≡ x))
  unfolding post
  post-delivered chance g url lines body x =
      let inj = (roll chance t g).0 in
      let (delivered, status) = exchange-delivered curl t inj url lines body x in
      (delivered, status, exchange-world curl t inj url lines body x)
