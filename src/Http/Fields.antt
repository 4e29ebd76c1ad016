-- ===== src/Http/Fields.antt =====
-- The header lines of color_http_client.cc as color_interceptor.cc, `Parse`, reads them.
use color.Prelude.{
  ℕ, zero, suc, ◌≤◌, ◌<◌, ◌≡◌, refl, ap, sym, ◌∙◌, true, false, Option-cases, inl, inr, Option,
  none, some, List, [], ◌∷◌, ◌++◌, ◌==◌, drop, length, arith, u64_mod, All, append-nil, subst,
  length-append,
}
use color.Text.{Bytes, codes, to_string, strtoull, is_digit}
use color.Text.Decimal.{AllDigits, to_string-AllDigits, to_string-cons, strtoull-to_string}
use color.Core.Message.{Seq, Request}
use color.Http.Headers.{
  header_lines, acks_csv, acks_tail, split_comma, csv_loop, parse_csv, parse_u64_or, parse,
  header_of, hash_header,
}

-- A request that C++ can hold.
pub record FitsRequest (r : Request) : Type 0 where
  pub seq : r.seq < u64_mod
  pub ack_base : r.ack_base < u64_mod
  pub ack_new : All (λ i. i < u64_mod) r.ack_new
  pub hash : (h : ℕ) → r.hash ≡ some h → h < u64_mod

strtoull-number : (n : ℕ) → n < u64_mod → strtoull (to_string n) ≡ n
strtoull-number n h = ap strtoull (sym (append-nil (to_string n))) ∙ strtoull-to_string n [] h tt

parse_u64_or-to_string : (n d : ℕ) → n < u64_mod → parse_u64_or (to_string n) d ≡ n
parse_u64_or-to_string n d h =
    let (c, s, e, _) = to_string-cons n in
    ap (λ (t : Bytes). parse_u64_or t d) e
    ∙ unfold parse_u64_or in (ap strtoull (sym e) ∙ strtoull-number n h)

digit_not_comma : (d : ℕ) → is_digit d ≡ true → (d == b',') ≡ false
unfolding is_digit
digit_not_comma d h = ground arith

split_comma-digits :
    (ds : Bytes) (rest : Bytes) → AllDigits ds → split_comma (ds ++ b',' ∷ rest) ≡ (ds, b',' ∷ rest)
unfolding split_comma
split_comma-digits [] rest h = refl
split_comma-digits (d ∷ ds) rest h =
    let other : (d == b',') ≡ false = digit_not_comma d h.0 in
    rw (other, split_comma-digits ds rest h.1) refl

split_comma-last : (ds : Bytes) → AllDigits ds → split_comma ds ≡ (ds, [])
unfolding split_comma
split_comma-last [] h = refl
split_comma-last (d ∷ ds) h = rw (digit_not_comma d h.0, split_comma-last ds h.1) refl

-- One round of the loop, on a field that is not empty.
csv_loop-field :
    (fuel c : ℕ) (field rest s : Bytes)
    → split_comma (c ∷ s) ≡ (c ∷ field, rest)
    → csv_loop (suc fuel) (c ∷ s) ≡ strtoull (c ∷ field) ∷ csv_loop fuel (drop 1 rest)
unfolding csv_loop
csv_loop-field fuel c field rest s e =
    rw (e, csv_loop)
      (ap (λ (p : Bytes × Bytes). strtoull (c ∷ field) ∷ csv_loop fuel (drop 1 p.1)) e)

csv_loop-next :
    (fuel n : ℕ) (rest : Bytes)
    → n < u64_mod
    → csv_loop (suc fuel) (to_string n ++ b',' ∷ rest) ≡ n ∷ csv_loop fuel rest
csv_loop-next fuel n rest h =
    let (c, s, e, _) = to_string-cons n in
    let digits = to_string-AllDigits n in
    let front : split_comma ((c ∷ s) ++ b',' ∷ rest) ≡ (c ∷ s, b',' ∷ rest) =
      split_comma-digits (c ∷ s) rest (subst AllDigits e digits) in
    let step : csv_loop (suc fuel) ((c ∷ s) ++ b',' ∷ rest)
        ≡ strtoull (c ∷ s) ∷ csv_loop fuel rest =
      csv_loop-field fuel c s (b',' ∷ rest) (s ++ b',' ∷ rest) front in
    ap (λ (t : Bytes). csv_loop (suc fuel) (t ++ b',' ∷ rest)) e
    ∙ step
    ∙ ap (λ m. m ∷ csv_loop fuel rest) (ap strtoull (sym e) ∙ strtoull-number n h)

csv_loop-last : (fuel n : ℕ) → n < u64_mod → csv_loop (suc (suc fuel)) (to_string n) ≡ n ∷ []
csv_loop-last fuel n h =
    let (c, s, e, _) = to_string-cons n in
    let front : split_comma (c ∷ s) ≡ (c ∷ s, []) =
      split_comma-last (c ∷ s) (subst AllDigits e (to_string-AllDigits n)) in
    let step : csv_loop (suc (suc fuel)) (c ∷ s) ≡ strtoull (c ∷ s) ∷ [] =
      csv_loop-field (suc fuel) c s [] s front ∙ unfold csv_loop in refl in
    ap (csv_loop (suc (suc fuel))) e
    ∙ step
    ∙ ap (λ m. m ∷ []) (ap strtoull (sym e) ∙ strtoull-number n h)

csv_loop-acks :
    (fuel n : ℕ) (acks : List Seq)
    → n < u64_mod
    → All (λ i. i < u64_mod) acks
    → length acks < fuel
    → csv_loop (suc fuel) (to_string n ++ acks_tail acks) ≡ n ∷ acks
unfolding acks_tail
csv_loop-acks zero n acks h hs le = elim le [ ]
csv_loop-acks (suc fuel) n [] h hs le = rw append-nil (csv_loop-last fuel n h)
csv_loop-acks (suc fuel) n (i ∷ acks) h hs le =
    csv_loop-next (suc fuel) n (to_string i ++ acks_tail acks) h
    ∙ ap (◌∷◌ n) (csv_loop-acks fuel i acks hs.0 hs.1 (omega arith))

length-acks_tail : (acks : List Seq) → length acks ≤ length (acks_tail acks)
unfolding acks_tail
length-acks_tail [] = omega arith
length-acks_tail (i ∷ acks) =
    omega (arith, length-acks_tail acks, length-append (to_string i) (acks_tail acks))

-- The listed acknowledgements, in their order.
pub parse_csv-acks_csv :
    (acks : List Seq) → All (λ i. i < u64_mod) acks → parse_csv (acks_csv acks) ≡ acks
unfolding parse_csv acks_csv
parse_csv-acks_csv [] h = unfold csv_loop in refl
parse_csv-acks_csv (i ∷ acks) h =
    let (c, s, e, _) = to_string-cons i in
    csv_loop-acks (length (to_string i ++ acks_tail acks)) i acks h.0 h.1 (
      omega
        (arith, length-acks_tail acks, length-append (to_string i) (acks_tail acks), ap length e))

abbrev HeaderValues : Request → Bytes → Bytes → Bytes → Bytes → Type 0
HeaderValues r seq base acks hash =
    (seq ≡ to_string r.seq)
    × (base ≡ to_string r.ack_base)
    × (acks ≡ acks_csv r.ack_new)
    × (hash ≡ elim r.hash [ none ↦ [] | some h ↦ to_string h ])

-- What HTTP makes of the header lines.
header_of-header_lines :
    (r : Request)
    → HeaderValues r
        (header_of (header_lines r) (codes "Color-Seq"))
        (header_of (header_lines r) (codes "Color-Ack-Base"))
        (header_of (header_lines r) (codes "Color-Ack-New"))
        (header_of (header_lines r) (codes "Color-Hash"))
unfolding header_of header_lines
header_of-header_lines r = (
  refl,
  refl,
  refl,
  elim (Option-cases r.hash) [ inl absent ↦ rw absent refl | inr (h, given) ↦ rw given refl ],
)

hash_header-to_string : (h : ℕ) → h < u64_mod → hash_header (to_string h) ≡ some h
hash_header-to_string h low =
    let (c, s, e, _) = to_string-cons h in
    ap hash_header e
    ∙ unfold hash_header in
      (ap (λ (t : Bytes). some (parse_u64_or t 0)) (sym e)
        ∙ ap some (parse_u64_or-to_string h 0 low))

hash_header-elim :
    (hash : Option ℕ)
    → ((h : ℕ) → hash ≡ some h → h < u64_mod)
    → hash_header (elim hash [ none ↦ [] | some h ↦ to_string h ]) ≡ hash
hash_header-elim none low = unfold hash_header in refl
hash_header-elim (some h) low = hash_header-to_string h (low h refl)

-- A request of 64-bit words that the client writes into header lines and a body is the request that
-- the interceptor reads, when the server's HTTP library returns for each name the header that stands
-- in these lines, or nothing when there is none.
pub parse-header_lines :
    (r : Request) (header : Bytes → Bytes)
    → ((name : Bytes) → header name ≡ header_of (header_lines r) name)
    → FitsRequest r
    → parse header r.payload ≡ r
unfolding parse
parse-header_lines r header carried fits =
    let (seq_value, base_value, acks_value, hash_value) = header_of-header_lines r in
    let seq : parse_u64_or (header (codes "Color-Seq")) 0 ≡ r.seq =
      ap (λ s. parse_u64_or s 0) (carried (codes "Color-Seq") ∙ seq_value)
      ∙ parse_u64_or-to_string r.seq 0 fits.seq in
    let base : parse_u64_or (header (codes "Color-Ack-Base")) 1 ≡ r.ack_base =
      ap (λ s. parse_u64_or s 1) (carried (codes "Color-Ack-Base") ∙ base_value)
      ∙ parse_u64_or-to_string r.ack_base 1 fits.ack_base in
    let acks : parse_csv (header (codes "Color-Ack-New")) ≡ r.ack_new =
      ap parse_csv (carried (codes "Color-Ack-New") ∙ acks_value)
      ∙ parse_csv-acks_csv r.ack_new fits.ack_new in
    let hash : hash_header (header (codes "Color-Hash")) ≡ r.hash =
      ap hash_header (carried (codes "Color-Hash") ∙ hash_value)
      ∙ hash_header-elim r.hash fits.hash in
    rw (seq, base, acks, hash) refl
