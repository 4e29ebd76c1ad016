-- ===== src/Wire/Numbers.antt =====
-- failover_json.cc, `Parser::parse_u64`: what `std::to_string` wrote.
use color.Prelude.{
  ℕ, ◌<◌, ◌≡◌, refl, sym, ap, ◌∙◌, true, false, [], ◌∷◌, ◌++◌, arith, append-nil, subst, u64_mod,
}
use color.Text.{Bytes, to_string, is_digit, strtoull}
use color.Text.Decimal.{AllDigits, to_string-AllDigits, to_string-cons, strtoull-to_string}
use color.Wire.Parser.{Parser, is_ws, skip_ws, ws, is_number_char, span_number, parse_u64}

-- The parser in front of some input, with no error so far.
abbrev pub ready : Bytes → Parser
ready s = record { rest = s; ok = true }

span_number-append :
    (ds : Bytes) (c : ℕ) (rest : Bytes)
    → AllDigits ds
    → is_number_char c ≡ false
    → span_number (ds ++ c ∷ rest) ≡ (ds, c ∷ rest)
unfolding span_number
span_number-append [] c rest h e = rw e refl
span_number-append (d ∷ ds) c rest h e =
    unfold is_number_char in rw (h.0, span_number-append ds c rest h.1 e) refl

digit-skip_ws : (d : ℕ) (s : Bytes) → is_digit d ≡ true → skip_ws (d ∷ s) ≡ d ∷ s
unfolding skip_ws is_ws is_digit
digit-skip_ws d s h = ground arith

to_string-skip_ws : (n : ℕ) (rest : Bytes) → skip_ws (to_string n ++ rest) ≡ to_string n ++ rest
to_string-skip_ws n rest =
    let (d, ds, e, h) = to_string-cons n in
    subst (λ (s : Bytes). skip_ws (s ++ rest) ≡ s ++ rest) (sym e) (digit-skip_ws d (ds ++ rest) h)

-- A number is read back, and the parser stands at the character behind it.
pub parse_u64-to_string :
    (n c : ℕ) (rest : Bytes)
    → n < u64_mod
    → is_number_char c ≡ false
    → parse_u64 (ready (to_string n ++ c ∷ rest)) ≡ (n, ready (c ∷ rest))
unfolding parse_u64 ws
parse_u64-to_string n c rest h e =
    rw
      (
        to_string-skip_ws n (c ∷ rest),
        span_number-append (to_string n) c rest (to_string-AllDigits n) e,
      )
      (ap (λ (m : ℕ). (m, ready (c ∷ rest)))
        (ap strtoull (sym (append-nil (to_string n))) ∙ strtoull-to_string n [] h tt))
