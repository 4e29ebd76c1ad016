-- ===== src/Wire/Strings.antt =====
-- failover_json.cc, `parse_string`: a quoted string.
use color.Prelude.{
  ℕ, suc, ◌+◌, ◌*◌, ◌/◌, ◌%◌, ◌<◌, ◌≡◌, ◌≢◌, inl, inr, refl, sym, ap, ◌∙◌, true, false, ◌&&◌, [],
  ◌∷◌, ◌++◌, ltb, leb, ◌==◌, ltb→lt, ==→eq, length, arith, Bool-cases, All, append-nil,
  append_assoc, ==_of_ne,
}
use color.Text.{Bytes}
use color.Wire.Serialize.{escape_char, escape, quoted, hex_digit}
use color.Wire.Parser.{
  Mode, plain, string_step, string_loop, is_plain, parse_string, eat, ws, skip_ws, at, hex_value,
  unescape_char, is_ws,
}

abbrev pub IsBytes : Bytes → Type 0
IsBytes = All (λ c. c < 256)

hex_value-hex_digit : (d : ℕ) → d < 16 → hex_value (hex_digit d) ≡ d
unfolding hex_value hex_digit
hex_value-hex_digit d h = ground arith

loop_step :
    (m : Mode) (c : ℕ) (r s : Bytes)
    → (is_plain m && c == b'"') ≡ false
    → string_loop m (c ∷ r) s ≡ string_loop (string_step m c r s).0 r (string_step m c r s).1
loop_step m c r s h = unfold string_loop in rw h

-- A byte that stands for itself.
loop_plain :
    (c : ℕ) (r s : Bytes)
    → c ≢ b'"'
    → c ≢ b'\\'
    → string_loop plain (c ∷ r) s ≡ string_loop plain r (s ++ c ∷ [])
loop_plain c [] s q b =
    loop_step plain c [] s (unfold is_plain in ground arith) ∙ unfold string_step in refl
loop_plain c (e ∷ r) s q b =
    loop_step plain c (e ∷ r) s (unfold is_plain in ground arith)
    ∙ unfold string_step in rw (==_of_ne c b'\\' b)

-- A byte behind a backslash.
loop_escaped :
    (e : ℕ) (r s : Bytes)
    → e ≢ b'u'
    → string_loop plain (b'\\' ∷ e ∷ r) s ≡ string_loop plain r (s ++ unescape_char e ∷ [])
unfolding string_step string_loop
loop_escaped e r s h = rw (==_of_ne e b'u' h)

loop_hex :
    (c : ℕ) (r s : Bytes)
    → c < 32
    → string_loop plain
        (b'\\' ∷ b'u' ∷ b'0' ∷ b'0' ∷ hex_digit (c / 16 % 16) ∷ hex_digit (c % 16) ∷ r)
        s
      ≡ string_loop plain r (s ++ c ∷ [])
unfolding string_step string_loop
loop_hex c r s h =
    let room : leb 4 (suc (suc (suc (suc (length r))))) ≡ true = ground arith in
    let high = hex_value-hex_digit (c / 16 % 16) (omega arith) in
    let low = hex_value-hex_digit (c % 16) (omega arith) in
    let value : (0 + c / 16 % 16) * 16 + c % 16 ≡ c = omega arith in
    let ascii : ltb c 0x80 ≡ true = ground arith in rw (room, high, low, value, ascii)

read_as :
    (d c : ℕ) (t s : Bytes)
    → c ≡ d
    → string_loop plain t (s ++ d ∷ []) ≡ string_loop plain t (s ++ c ∷ [])
read_as d c t s e = ap (λ b. string_loop plain t (s ++ b ∷ [])) (sym e)

-- Each byte, escaped, is read as itself.
string_loop-escape_char :
    (c : ℕ) (t s : Bytes)
    → c < 256
    → string_loop plain (escape_char c ++ t) s ≡ string_loop plain t (s ++ c ∷ [])
unfolding escape_char unescape_char
string_loop-escape_char c t s h = elim (Bool-cases (c == b'"')) [
  | inl e ↦ rw e (loop_escaped b'"' t s (omega arith) ∙ read_as b'"' c t s (==→eq c b'"' e))
  | inr not_quote ↦ elim (Bool-cases (c == b'\\')) [
    | inl e ↦
        rw (not_quote, e)
          (loop_escaped b'\\' t s (omega arith) ∙ read_as b'\\' c t s (==→eq c b'\\' e))
    | inr not_backslash ↦ elim (Bool-cases (c == 0x0a)) [
      | inl e ↦
          rw (not_quote, not_backslash, e)
            (loop_escaped b'n' t s (omega arith) ∙ read_as 0x0a c t s (==→eq c 0x0a e))
      | inr not_n ↦ elim (Bool-cases (c == 0x0d)) [
        | inl e ↦
            rw (not_quote, not_backslash, not_n, e)
              (loop_escaped b'r' t s (omega arith) ∙ read_as 0x0d c t s (==→eq c 0x0d e))
        | inr not_r ↦ elim (Bool-cases (c == 0x09)) [
          | inl e ↦
              rw (not_quote, not_backslash, not_n, not_r, e)
                (loop_escaped b't' t s (omega arith) ∙ read_as 0x09 c t s (==→eq c 0x09 e))
          | inr not_t ↦ elim (Bool-cases (ltb c 0x20)) [
            | inl e ↦
                rw (not_quote, not_backslash, not_n, not_r, not_t, e)
                  (loop_hex c t s (ltb→lt c 32 e))
            | inr e ↦
                rw (not_quote, not_backslash, not_n, not_r, not_t, e)
                  (loop_plain c t s (ground arith) (ground arith))
          ]
        ]
      ]
    ]
  ]
]

-- The loop reads an escaped string, and stops at the quote.
pub string_loop-escape :
    (s rest done : Bytes)
    → IsBytes s
    → string_loop plain (escape s ++ b'"' ∷ rest) done ≡ (done ++ s, b'"' ∷ rest)
unfolding escape
string_loop-escape [] rest done h =
    unfold string_loop in ap (λ t. (t, b'"' ∷ rest)) (sym (append-nil done))
string_loop-escape (c ∷ s) rest done h =
    ap (λ t. string_loop plain t done) (append_assoc (escape_char c) (escape s) (b'"' ∷ rest))
    ∙ string_loop-escape_char c (escape s ++ b'"' ∷ rest) done h.0
    ∙ string_loop-escape s rest (done ++ c ∷ []) h.1
    ∙ ap (λ t. (t, b'"' ∷ rest)) (append_assoc done (c ∷ []) s)

-- A quoted string is read back, and the parser stands behind it.
pub parse_string-quoted :
    (s rest : Bytes)
    → IsBytes s
    → parse_string (record { rest = quoted s rest; ok = true })
      ≡ (s, record { rest = rest; ok = true })
unfolding parse_string quoted
parse_string-quoted s rest h =
    unfold eat ws skip_ws is_ws at in rw (string_loop-escape s rest [] h) refl
