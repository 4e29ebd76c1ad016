-- ===== src/Http/Headers.antt =====
-- src/client/color_http_client.cc, `header_lines`, and src/server/color_interceptor.cc, `Parse`: a
-- request as header lines and back.
use color.Prelude.{
  ℕ, zero, suc, Option, none, some, List, [], ◌∷◌, ◌++◌, ◌==◌, if◌then◌else◌, drop, length,
}
use color.Text.{Bytes, codes, to_string, strtoull}
use color.Core.Message.{Seq, Hash, Request}

-- `acks`: the listed ids, with a comma before each but the first.
unfoldable pub acks_tail : List Seq → Bytes
acks_tail [] = []
acks_tail (i ∷ acks) = b',' ∷ (to_string i ++ acks_tail acks)

unfoldable pub acks_csv : List Seq → Bytes
acks_csv [] = []
acks_csv (i ∷ acks) = to_string i ++ acks_tail acks

-- `ColorHttpClient::header_lines`
unfoldable pub header_lines : Request → List Bytes
header_lines r =
    (codes "Color-Seq: " ++ to_string r.seq)
    ∷ (codes "Color-Ack-Base: " ++ to_string r.ack_base)
    ∷ (codes "Color-Ack-New: " ++ acks_csv r.ack_new)
    ∷ (elim r.hash [ none ↦ [] | some h ↦ (codes "Color-Hash: " ++ to_string h) ∷ [] ]
        ++ codes "Content-Type: application/json" ∷ [])

-- What is in front of the next comma, and what is left from there: `s.find(',', i)`.
unfoldable pub split_comma : Bytes → Bytes × Bytes
split_comma [] = ([], [])
split_comma (c ∷ s) =
    let (field, rest) = split_comma s in if c == b',' then ([], c ∷ s) else (c ∷ field, rest)

-- `while (i < s.size())`; every round takes a character off.
unfoldable pub csv_loop : ℕ → Bytes → List Seq
csv_loop zero s = []
csv_loop (suc fuel) [] = []
csv_loop (suc fuel) (c ∷ s) =
    let (field, rest) = split_comma (c ∷ s) in
    let more = csv_loop fuel (drop 1 rest) in
    elim field [ [] ↦ more | d ∷ ds ↦ strtoull (d ∷ ds) ∷ more ]

-- `parse_csv`
unfoldable pub parse_csv : Bytes → List Seq
parse_csv s = csv_loop (suc (length s)) s

-- `parse_u64(s, dflt)`
unfoldable pub parse_u64_or : Bytes → Seq → Seq
parse_u64_or [] default_value = default_value
parse_u64_or (c ∷ s) default_value = strtoull (c ∷ s)

-- `if (!h.empty()) r.hash = parse_u64(h, 0)`
unfoldable pub hash_header : Bytes → Option Hash
hash_header [] = none
hash_header (c ∷ s) = some (parse_u64_or (c ∷ s) 0)

-- `ColorInterceptor::Parse`, for `GetRequestHeader` and the body of `ReadBody`.
unfoldable pub parse : (Bytes → Bytes) → Bytes → Request
parse header body = record {
  seq = parse_u64_or (header (codes "Color-Seq")) 0;
  ack_base = parse_u64_or (header (codes "Color-Ack-Base")) 1;
  ack_new = parse_csv (header (codes "Color-Ack-New"));
  hash = hash_header (header (codes "Color-Hash"));
  payload = body;
}

-- What HTTP says a header is: what follows the name and a colon in the first line that begins with
-- them, and nothing when no line does.
after_prefix : Bytes → Bytes → Option Bytes
after_prefix [] s = some s
after_prefix (c ∷ p) [] = none
after_prefix (c ∷ p) (d ∷ s) = if c == d then after_prefix p s else none

unfoldable pub header_of : List Bytes → Bytes → Bytes
unfolding after_prefix
header_of [] name = []
header_of (line ∷ lines) name = elim (after_prefix (name ++ codes ": ") line) [
  | none ↦ header_of lines name
  | some value ↦ value
]
