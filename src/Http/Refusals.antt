-- ===== src/Http/Refusals.antt =====
-- A call for a replay on its way from `OnRequest` of src/server/color_interceptor.cc through
-- `write_header` of src/client/curl_transport.cc to `send` of src/client/color_http_client.cc.
use color.Prelude.{
  ℕ, ◌≤◌, ◌<◌, ◌≡◌, refl, ap, sym, ◌∙◌, true, some, List, [], ◌∷◌, ◌++◌, map, append-nil, u64_mod,
}
use color.Text.{Bytes, codes, to_string, strtoull, bytes_eq}
use color.Text.Decimal.{strtoull-to_string}
use color.Dict.{contains}
use color.Core.Message.{Seq}
use color.Http.Interceptor.{Interceptor, Ending, aborted, replied, refuse}
use color.Http.Sender.{find_header, recover_header, recover_position, after_equals}
use color.Http.Lines.{
  write_header, set_header, to_lower, trim, trim_back, trim_front, trim_back-labelled,
}
use color.Http.Curl.{Injected, Transferred, concluded, write_headers}
use color.Http.Replies.{header_line, write_line}

-- What libcurl hands over of a reply: its status, a line for each header, and its body.
abbrev pub transferred : ℕ → List (Bytes × Bytes) → Bytes → Transferred
transferred code headers body = record {
  is_ok = true;
  code = code;
  header_lines = map header_line headers;
  chunks = body ∷ [];
}

-- The reply that ends a request is for the client, when nothing is dropped of it, a call for a replay
-- from a position.
abbrev pub CallsFor : Ending → ℕ → Type 0
CallsFor (aborted object) from = 1 ≤ 0
CallsFor (replied object code headers body) from =
    let res = concluded Injected.none (transferred code headers body) in
    (v : Bytes) × (recover_header res ≡ some v) × (recover_position v ≡ from)

write_recover :
    (n : ℕ) (headers : List (Bytes × Bytes))
    → write_header (header_line (codes "Color-Recover", codes "from=" ++ to_string n)) headers
      ≡ set_header (codes "color-recover") (codes "from=" ++ to_string n) headers
unfolding contains trim trim_back trim_front to_lower
write_recover n headers =
    write_line (codes "Color-Recover") (codes "from=" ++ to_string n) (codes "color-recover")
      headers refl refl (ap trim_front (trim_back-labelled (codes " from=") n))

recover_position-from : (n : ℕ) → n < u64_mod → recover_position (codes "from=" ++ to_string n) ≡ n
unfolding recover_position after_equals
recover_position-from n h =
    ap strtoull (sym (append-nil (to_string n))) ∙ strtoull-to_string n [] h tt

-- When the interceptor refuses a request, the reply with which it ends the request is for the client,
-- carried by a transfer that ends well and of which nothing is dropped, a call for a replay from
-- exactly the position that the core asked for, if this is a 64-bit word.
pub refuse-recovers :
    {W : Type 0} (t : Interceptor W) (seq : Seq) (object from : ℕ)
    → from < u64_mod
    → (e : Ending) × ((refuse t seq object from).endings ≡ t.endings ++ e ∷ []) × CallsFor e from
unfolding refuse concluded recover_header write_headers set_header find_header bytes_eq
refuse-recovers t seq object from small = (
  replied object 503 ((codes "Color-Recover", codes "from=" ++ to_string from) ∷ []) [],
  refl,
  (
    codes "from=" ++ to_string from,
    rw (write_recover from []) refl,
    recover_position-from from small,
  ),
)
