-- ===== src/Http/Replies.antt =====
-- A response on its way from `Complete` of src/server/color_interceptor.cc through `write_header` of
-- src/client/curl_transport.cc to `send` of src/client/color_http_client.cc.
use color.Prelude.{
  ◌<◌, ◌≡◌, ap, ◌∙◌, Bool, true, false, Option, none, some, List, [], ◌∷◌, ◌++◌, map, if◌then◌else◌,
  u64_mod,
}
use color.Text.{Bytes, codes, to_string}
use color.Dict.{contains}
use color.Core.Message.{Seq, Hash}
use color.Http.Interceptor.{Interceptor}
use color.Http.Sender.{HttpResult}
use color.Http.Lines.{write_header, set_header, find_colon-append, to_lower, trim}

-- A header as a line of HTTP.
abbrev pub header_line : Bytes × Bytes → Bytes
header_line (name, val) = name ++ b':' ∷ b' ' ∷ (val ++ 0x0d ∷ 0x0a ∷ [])

pub write_line :
    (name val key : Bytes) (headers : List (Bytes × Bytes))
    → contains b':' name ≡ false
    → trim (map to_lower name) ≡ key
    → trim (b' ' ∷ (val ++ 0x0d ∷ 0x0a ∷ [])) ≡ val
    → write_header (header_line (name, val)) headers ≡ set_header key val headers
unfolding write_header
write_line name val key headers plain lowered trimmed =
    rw (find_colon-append name (b' ' ∷ (val ++ 0x0d ∷ 0x0a ∷ [])) plain, write_header)
      (ap (λ k. set_header k (trim (b' ' ∷ (val ++ 0x0d ∷ 0x0a ∷ []))) headers) lowered
        ∙ ap (λ v. set_header key v headers) trimmed)

-- What `response_headers` is, over its ingredients.
abbrev headers_of : Bool → Seq → Option Hash → Bool → List (Bytes × Bytes)
headers_of set_hash seq hash no_op =
    (codes "Color-Seq", to_string seq)
    ∷ (elim hash [
      | none ↦ []
      | some h ↦ if set_hash then (codes "Color-Hash", to_string h) ∷ [] else []
    ]
        ++ ((if no_op then (codes "Color-No-Op", codes "1") ∷ [] else [])
            ++ (codes "Content-Type", codes "application/json") ∷ []))

-- The headers as the client then has them.
abbrev written : Bool → Seq → Option Hash → Bool → List (Bytes × Bytes)
written set_hash seq hash no_op =
    (codes "color-seq", to_string seq)
    ∷ (elim hash [
      | none ↦ []
      | some h ↦ if set_hash then (codes "color-hash", to_string h) ∷ [] else []
    ]
        ++ ((if no_op then (codes "color-no-op", codes "1") ∷ [] else [])
            ++ (codes "content-type", codes "application/json") ∷ []))

-- The hash that goes over the wire.
abbrev pub sent_hash : Bool → Option Hash → Option Hash
sent_hash set_hash hash = if set_hash then hash else none

abbrev pub result_of : Bytes → List (Bytes × Bytes) → HttpResult
result_of body headers = record { delivered = true; status = 200; headers = headers; body = body }

-- The words of a response fit a `uint64_t`.
abbrev pub HashFits : Option Hash → Type 0
HashFits none = Unit {0}
HashFits (some h) = h < u64_mod
