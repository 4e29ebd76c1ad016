-- ===== src/Wire/Sizes.antt =====
-- failover_json.cc, `Parser`: how much of the input its operations leave.
use color.Prelude.{
  Option, none, some, subst, ℕ, zero, suc, ◌+◌, ◌-◌, ◌≤◌, ◌<◌, ◌≡◌, refl, sym, inl, inr, Bool, true,
  false, ◌||◌, [], ◌∷◌, ◌==◌, if◌then◌else◌, length, drop, arith, Bool-cases, length-drop,
}
use color.Text.{Bytes}
use color.Wire.Parser.{
  Parser, Mode, plain, is_ws, skip_ws, ws, at, at_end, eat, peek, string_step, string_loop,
  parse_string, span_number, parse_u64, skip_nested, skip_scalar, skip_value,
}

abbrev pub size : Parser → ℕ
size p = length p.rest

skip_ws-length : (s : Bytes) → length (skip_ws s) ≤ length s
unfolding skip_ws
skip_ws-length [] = omega arith
skip_ws-length (c ∷ s) = ground (arith, skip_ws-length s)

pub ws-size : (p : Parser) → size (ws p) ≤ size p
unfolding ws
ws-size p = skip_ws-length p.rest

at-length : (c : ℕ) (s : Bytes) → at c s ≡ true → length (drop 1 s) < length s
unfolding at
at-length c [] h = absurd (cc)
at-length c (d ∷ s) h = omega arith

drop-length : (n : ℕ) (s : Bytes) → length (drop n s) ≤ length s
drop-length n s = omega (arith, length-drop n s)

pub eat-size : (c : ℕ) (p : Parser) → size (eat c p).1 ≤ size p
unfolding eat
eat-size c p = ground (arith, ws-size p, drop-length 1 (ws p).rest)

pub eat-shorter : (c : ℕ) (p : Parser) → (eat c p).0 ≡ true → size (eat c p).1 < size p
unfolding eat
eat-shorter c p h = ground (arith, ws-size p, at-length c (ws p).rest)

pub peek-size : (c : ℕ) (p : Parser) → size (peek c p).1 ≤ size p
unfolding peek
peek-size c p = ws-size p

string_loop-length : (m : Mode) (s done : Bytes) → length (string_loop m s done).1 ≤ length s
unfolding string_loop
string_loop-length m [] done = omega arith
string_loop-length m (c ∷ r) done =
    ground (arith, string_loop-length (string_step m c r done).0 r (string_step m c r done).1)

pub parse_string-size : (p : Parser) → size (parse_string p).1 ≤ size p
unfolding parse_string
parse_string-size p =
    let behind = string_loop plain (drop 1 (skip_ws p.rest)) [] in
    elim (Bool-cases (at b'"' (skip_ws p.rest))) [
      | inl h ↦ rw h (
          ground (
            arith,
            skip_ws-length p.rest,
            drop-length 1 (skip_ws p.rest),
            string_loop-length plain (drop 1 (skip_ws p.rest)) [],
            drop-length 1 behind.1,
          ))
      | inr h ↦ rw h (skip_ws-length p.rest)
    ]

span_number-length : (s : Bytes) → length (span_number s).1 ≤ length s
unfolding span_number
span_number-length [] = omega arith
span_number-length (c ∷ s) = ground (arith, span_number-length s)

pub parse_u64-size : (p : Parser) → size (parse_u64 p).1 ≤ size p
unfolding parse_u64
parse_u64-size p = omega (arith, ws-size p, span_number-length (ws p).rest)

skip_scalar-length : (s : Bytes) → length (skip_scalar s) ≤ length s
unfolding skip_scalar
skip_scalar-length [] = omega arith
skip_scalar-length (c ∷ s) = ground (arith, skip_scalar-length s)

quote-skip_ws : (s : Bytes) → at b'"' s ≡ true → skip_ws s ≡ s
unfolding at skip_ws is_ws
quote-skip_ws [] h = absurd (cc)
quote-skip_ws (c ∷ s) h = ground arith

parse_string-shorter : (p : Parser) → at b'"' p.rest ≡ true → size (parse_string p).1 < size p
unfolding parse_string
parse_string-shorter p h =
    let behind = string_loop plain (drop 1 p.rest) [] in
    rw (quote-skip_ws p.rest h) (
      rw h (
        ground (
          arith,
          at-length b'"' p.rest h,
          string_loop-length plain (drop 1 p.rest) [],
          drop-length 1 behind.1,
        )))

at_end-size : (s : Bytes) → at_end s ≡ false → 1 ≤ length s
unfolding at_end
at_end-size [] h = absurd (cc)
at_end-size (c ∷ s) h = omega arith

abbrev next_depth : ℕ → ℕ → ℕ → Parser → ℕ
next_depth open_char close depth p =
    if at open_char p.rest then depth + 1 else if at close p.rest then depth - 1 else depth

skip_nested-step :
    (fuel open_char close depth : ℕ) (p : Parser)
    → skip_nested (suc fuel) open_char close depth p ≡ (
        if at_end p.rest || depth == 0
        then some p
        else if at b'"' p.rest
        then skip_nested fuel open_char close depth (parse_string p).1
        else skip_nested fuel open_char close
            (next_depth open_char close depth p)
            (record p { rest = drop 1 p.rest }))
unfolding skip_nested
skip_nested-step fuel open_char close depth p = refl

-- A piece that comes to its end, and has not moved back.
abbrev pub Skips : ℕ → Option Parser → Type 0
Skips n none = 1 ≤ 0
Skips n (some q) = size q ≤ n

Skips-le : (m n : ℕ) (o : Option Parser) → m ≤ n → Skips m o → Skips n o
Skips-le m n none le h = h
Skips-le m n (some q) le h = omega arith

if-Skips :
    (n : ℕ) (b : Bool) (x y : Option Parser)
    → (b ≡ true → Skips n x)
    → (b ≡ false → Skips n y)
    → Skips n (if b then x else y)
if-Skips n true x y h k = h refl
if-Skips n false x y h k = k refl

-- The loop inside brackets comes to its end within one more round than there are characters.
skip_nested-Skips :
    (fuel open_char close depth : ℕ) (p : Parser)
    → size p < fuel
    → Skips (size p) (skip_nested fuel open_char close depth p)
skip_nested-Skips zero open_char close depth p h = absurd (omega arith)
skip_nested-Skips (suc fuel) open_char close depth p h =
    subst (Skips (size p)) (sym (skip_nested-step fuel open_char close depth p)) (
      if-Skips (size p) (at_end p.rest || depth == 0) _ _ (λ e. omega arith)
        (λ e.
          if-Skips (size p) (at b'"' p.rest) _ _
            (λ quote.
              let shorter : size (parse_string p).1 < size p = parse_string-shorter p quote in
              Skips-le (size (parse_string p).1) (size p) _ (omega arith)
                (skip_nested-Skips fuel open_char close depth (parse_string p).1 (omega arith)))
            (λ other.
              let left : 1 ≤ length p.rest = at_end-size p.rest (ground arith) in
              let one = length-drop 1 p.rest in
              Skips-le (length (drop 1 p.rest)) (size p) _ (omega arith) (
                skip_nested-Skips fuel open_char close (next_depth open_char close depth p)
                  (record p { rest = drop 1 p.rest }) (omega arith)))))

pub skip_value-Skips : (p : Parser) → Skips (size p) (skip_value p)
unfolding skip_value
skip_value-Skips p =
    let q = ws p in
    let small : size q ≤ size p = ws-size p in
    let one = length-drop 1 q.rest in
    let nested = (λ (open_char close : ℕ) (some_left : at_end q.rest ≡ false).
      let left : 1 ≤ length q.rest = at_end-size q.rest some_left in
      Skips-le (length (drop 1 q.rest)) (size p) _ (omega arith) (
        skip_nested-Skips (length q.rest) open_char close 1 (record q { rest = drop 1 q.rest })
          (omega arith))) in
    if-Skips (size p) (at_end q.rest) _ _ (λ e. omega arith)
      (λ left.
        if-Skips (size p) (at b'"' q.rest) _ _ (λ e. omega (arith, parse_string-size q))
          (λ e.
            if-Skips (size p) (at b'{' q.rest) _ _ (λ e. nested b'{' b'}' left)
              (λ e.
                if-Skips (size p) (at b'[' q.rest) _ _ (λ e. nested b'[' b']' left)
                  (λ e. omega (arith, skip_scalar-length q.rest)))))
