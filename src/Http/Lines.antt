-- ===== src/Http/Lines.antt =====
-- src/client/curl_transport.cc, `write_header`: a line of the reply as libcurl hands it over.
use color.Prelude.{
  ℕ, ◌+◌, ◌≡◌, refl, ap, sym, ◌∙◌, Bool, true, false, ◌&&◌, ◌||◌, Option, none, some, List, [], ◌∷◌,
  ◌++◌, map, leb, ◌==◌, if◌then◌else◌, arith, subst, ==_self,
}
use color.Text.{Bytes, to_string, bytes_eq, is_digit}
use color.Text.Decimal.{AllDigits, to_string-AllDigits, to_string-cons}
use color.Dict.{contains}
use color.Http.Sender.{find_header}

-- `line.find(':')`: what stands in front of the first colon and behind it.
unfoldable pub find_colon : Bytes → Option (Bytes × Bytes)
find_colon [] = none
find_colon (c ∷ s) =
    let rest = find_colon s in
    if c == b':' then some ([], s) else elim rest [ none ↦ none | some (k, v) ↦ some (c ∷ k, v) ]

-- `std::tolower` in the C locale
unfoldable pub to_lower : ℕ → ℕ
to_lower c = if leb b'A' c && leb c b'Z' then c + 32 else c

unfoldable pub is_blank : ℕ → Bool
is_blank c = c == 0x0d || c == 0x0a || c == b' '

-- `while (!s.empty() && (…)) s.pop_back()`
unfoldable pub trim_back : Bytes → Bytes
unfolding is_blank
trim_back [] = []
trim_back (c ∷ s) = elim (trim_back s) [
  | [] ↦ if is_blank c then [] else c ∷ []
  | d ∷ r ↦ c ∷ d ∷ r
]

-- `while (i < s.size() && s[i] == ' ') ++i; s.erase(0, i)`
unfoldable pub trim_front : Bytes → Bytes
trim_front [] = []
trim_front (c ∷ s) = let rest = trim_front s in if c == b' ' then rest else c ∷ s

unfoldable pub trim : Bytes → Bytes
trim s = trim_front (trim_back s)

-- `(*headers)[key] = val`
unfoldable pub set_header : Bytes → Bytes → List (Bytes × Bytes) → List (Bytes × Bytes)
set_header key val [] = (key, val) ∷ []
set_header key val ((name, value) ∷ headers) =
    let rest = set_header key val headers in
    if bytes_eq name key then (name, val) ∷ headers else (name, value) ∷ rest

-- `write_header`
unfoldable pub write_header : Bytes → List (Bytes × Bytes) → List (Bytes × Bytes)
write_header line headers = elim (find_colon line) [
  | none ↦ headers
  | some (key, val) ↦ set_header (trim (map to_lower key)) (trim val) headers
]

bytes_eq_self : (s : Bytes) → bytes_eq s s ≡ true
unfolding bytes_eq
bytes_eq_self [] = refl
bytes_eq_self (c ∷ s) = rw (==_self c, bytes_eq_self s) refl

pub find_header-set_header :
    (key val : Bytes) (headers : List (Bytes × Bytes))
    → find_header key (set_header key val headers) ≡ some val
unfolding find_header set_header
find_header-set_header key val [] = rw (bytes_eq_self key) refl
find_header-set_header key val ((name, value) ∷ headers) =
    ground (arith, find_header-set_header key val headers)

pub find_colon-append :
    (key val : Bytes) → contains b':' key ≡ false → find_colon (key ++ b':' ∷ val) ≡ some (key, val)
unfolding find_colon contains
find_colon-append [] val h = refl
find_colon-append (c ∷ key) val h =
    let colon : (c == b':') ≡ false = ground arith in
    rw (find_colon-append key val (ground arith), find_colon) (rw colon refl)

digit_not_blank : (d : ℕ) → is_digit d ≡ true → is_blank d ≡ false
unfolding is_digit is_blank
digit_not_blank d h = ground arith

trim_back-digits : (ds : Bytes) → AllDigits ds → trim_back (ds ++ 0x0d ∷ 0x0a ∷ []) ≡ ds
unfolding trim_back
trim_back-digits [] h = refl
trim_back-digits (d ∷ []) h = rw (digit_not_blank d h.0) refl
trim_back-digits (d ∷ e ∷ ds) h = rw (trim_back-digits (e ∷ ds) h.1, trim_back) refl

trim_front-digit : (d : ℕ) (ds : Bytes) → is_digit d ≡ true → trim_front (b' ' ∷ d ∷ ds) ≡ d ∷ ds
unfolding trim_front is_digit
trim_front-digit d ds h = ground arith

trim_front-to_string : (n : ℕ) → trim_front (b' ' ∷ to_string n) ≡ to_string n
trim_front-to_string n =
    let (d, ds, e, h) = to_string-cons n in
    subst (λ (s : Bytes). trim_front (b' ' ∷ s) ≡ s) (sym e) (trim_front-digit d ds h)

trim_back-cons : (c d : ℕ) (s t : Bytes) → trim_back s ≡ d ∷ t → trim_back (c ∷ s) ≡ c ∷ d ∷ t
unfolding trim_back
trim_back-cons c d s t e = rw (e, trim_back) refl

-- A text in front of a number keeps its end.
trim_back-label :
    (label : Bytes) (n : ℕ)
    → (d : ℕ) × (t : Bytes) × (label ++ to_string n ≡ d ∷ t)
      × (trim_back (label ++ (to_string n ++ 0x0d ∷ 0x0a ∷ [])) ≡ d ∷ t)
trim_back-label [] n =
    let (d, ds, e, h) = to_string-cons n in
    (d, ds, e, trim_back-digits (to_string n) (to_string-AllDigits n) ∙ e)
trim_back-label (c ∷ label) n =
    let (d, t, e, back) = trim_back-label label n in
    (c, d ∷ t, ap (◌∷◌ c) e, trim_back-cons c d _ t back)

pub trim_back-labelled :
    (label : Bytes) (n : ℕ)
    → trim_back (label ++ (to_string n ++ 0x0d ∷ 0x0a ∷ [])) ≡ label ++ to_string n
trim_back-labelled label n = let (d, t, e, back) = trim_back-label label n in back ∙ sym e

pub trim-number : (n : ℕ) → trim (b' ' ∷ (to_string n ++ 0x0d ∷ 0x0a ∷ [])) ≡ to_string n
unfolding trim
trim-number n =
    let (d, ds, e, h) = to_string-cons n in
    let back = trim_back-digits (to_string n) (to_string-AllDigits n) in
    ap trim_front (
      trim_back-cons b' ' d (to_string n ++ 0x0d ∷ 0x0a ∷ []) ds (back ∙ e) ∙ ap (◌∷◌ b' ') (sym e))
    ∙ trim_front-to_string n

-- A header line with a number, as libcurl hands it over with its line end, is found under the name in
-- lower case with exactly the digits of the number, whatever headers came before, when the name has
-- no colon and no blank at its ends.
pub find_header-write_header :
    (name : Bytes) (n : ℕ) (headers : List (Bytes × Bytes))
    → contains b':' name ≡ false
    → trim (map to_lower name) ≡ map to_lower name
    → find_header
        (map to_lower name)
        (write_header (name ++ b':' ∷ b' ' ∷ (to_string n ++ 0x0d ∷ 0x0a ∷ [])) headers)
      ≡ some (to_string n)
unfolding write_header
find_header-write_header name n headers plain trimmed =
    let value : Bytes = b' ' ∷ (to_string n ++ 0x0d ∷ 0x0a ∷ []) in
    let key = map to_lower name in
    rw (find_colon-append name value plain, write_header)
      (ap (λ k. find_header key (set_header k (trim value) headers)) trimmed
        ∙ ap (λ v. find_header key (set_header key v headers)) (trim-number n)
        ∙ find_header-set_header key (to_string n) headers)
