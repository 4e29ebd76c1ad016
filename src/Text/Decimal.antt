-- ===== src/Text/Decimal.antt =====
-- `strtoull` reads back what `std::to_string` writes.
use native.Mathlib.Nat.{pow-suc}
use color.Prelude.{
  ℕ, zero, suc, ◌+◌, ◌-◌, ◌*◌, ◌/◌, ◌%◌, ◌^◌, ◌<◌, ◌≡◌, refl, true, false, [], ◌∷◌, ◌++◌, arith,
  ltb, u64_mod, ltb→lt, All, Bool-cases, inl, inr, sym, ap, subst, ◌∙◌,
}
use color.Text.{
  Bytes, digits, to_string, is_digit, is_space, scan_digits, saturate, signed_digits, strtoull,
}

abbrev pub AllDigits : Bytes → Type 0
AllDigits = All (λ c. is_digit c ≡ true)

-- `rest` does not go on with a digit.
abbrev pub EndsNumber : Bytes → Type 0
EndsNumber [] = Unit
EndsNumber (c ∷ rest) = is_digit c ≡ false

digit_byte : (n : ℕ) → is_digit (b'0' + n % 10) ≡ true
unfolding is_digit
digit_byte n = ground arith

digits-AllDigits : (f n : ℕ) (out : Bytes) → AllDigits out → AllDigits (digits f n out)
unfolding digits
digits-AllDigits zero n out h = h
digits-AllDigits (suc f) n out h = elim (Bool-cases (ltb n 10)) [
  | inl e ↦ rw e (digit_byte n, h)
  | inr e ↦ rw e (digits-AllDigits f (n / 10) _ (digit_byte n, h))
]

pub to_string-AllDigits : (n : ℕ) → AllDigits (to_string n)
unfolding to_string
to_string-AllDigits n = digits-AllDigits 20 n [] tt

scan_last : (n : ℕ) (out : Bytes) → scan_digits ((b'0' + n % 10) ∷ out) (n / 10) ≡ scan_digits out n
unfolding scan_digits
scan_last n out = rw (digit_byte n) (ap (scan_digits out) (omega arith))

scan_only :
    (n : ℕ) (out : Bytes) → n < 10 → scan_digits ((b'0' + n % 10) ∷ out) 0 ≡ scan_digits out n
unfolding scan_digits
scan_only n out h = rw (digit_byte n) (ap (scan_digits out) (omega arith))

scan_digits-digits :
    (f n : ℕ) (out : Bytes) → n < 10 ^ f → scan_digits (digits f n out) 0 ≡ scan_digits out n
unfolding digits
scan_digits-digits zero n out h = ap (scan_digits out) (omega arith)
scan_digits-digits (suc f) n out h = elim (Bool-cases (ltb n 10)) [
  | inl e ↦ rw e (scan_only n out (ltb→lt n 10 e))
  | inr e ↦ rw e (scan_digits-digits f (n / 10) _ (ground (arith, pow-suc 10 f)) ∙ scan_last n out)
]

-- Behind a number, `scan_digits` stops where the digits stop.
scan_digits-append :
    (ds rest : Bytes) (n : ℕ)
    → AllDigits ds
    → EndsNumber rest
    → scan_digits (ds ++ rest) n ≡ scan_digits ds n
unfolding scan_digits
scan_digits-append [] [] n h e = refl
scan_digits-append [] (c ∷ rest) n h e = rw e
scan_digits-append (d ∷ ds) rest n h e =
    rw (h.0) (scan_digits-append ds rest (n * 10 + (d - b'0')) h.1 e)

-- A digit is neither a space nor a sign.
strtoull-digits :
    (ds : Bytes) (d : ℕ)
    → is_digit d ≡ true
    → strtoull (d ∷ ds) ≡ saturate false (scan_digits (d ∷ ds) 0)
unfolding strtoull signed_digits is_space is_digit
strtoull-digits ds d h = ground arith

digits-cons_out :
    (f n d : ℕ) (out : Bytes) → (e : ℕ) × (ds : Bytes) × (digits f n (d ∷ out) ≡ e ∷ ds)
unfolding digits
digits-cons_out zero n d out = (d, out, refl)
digits-cons_out (suc f) n d out = elim (Bool-cases (ltb n 10)) [
  | inl e ↦ rw e (b'0' + n % 10, d ∷ out, refl)
  | inr e ↦ rw e (digits-cons_out f (n / 10) (b'0' + n % 10) (d ∷ out))
]

digits-cons : (f n : ℕ) → (d : ℕ) × (ds : Bytes) × (digits (suc f) n [] ≡ d ∷ ds)
unfolding digits
digits-cons f n = elim (Bool-cases (ltb n 10)) [
  | inl e ↦ rw e (b'0' + n % 10, [], refl)
  | inr e ↦ rw e (digits-cons_out f (n / 10) (b'0' + n % 10) [])
]

-- A number has a first digit.
pub to_string-cons : (n : ℕ) → (d : ℕ) × (ds : Bytes) × (to_string n ≡ d ∷ ds) × (is_digit d ≡ true)
unfolding to_string
to_string-cons n =
    let (d, ds, e) = digits-cons 19 n in (d, ds, e, (subst AllDigits e (to_string-AllDigits n)).0)

scan_digits-to_string : (n : ℕ) → n < u64_mod → scan_digits (to_string n) 0 ≡ n
unfolding to_string scan_digits
scan_digits-to_string n h = scan_digits-digits 20 n [] (omega arith)

saturate-eq : (n : ℕ) → n < u64_mod → saturate false n ≡ n
unfolding saturate
saturate-eq n h = ground arith

-- A word, printed, is read back by `strtoull`, whatever follows that is no digit.
pub strtoull-to_string :
    (n : ℕ) (rest : Bytes) → n < u64_mod → EndsNumber rest → strtoull (to_string n ++ rest) ≡ n
strtoull-to_string n rest h e =
    let (d, ds, p, q) = to_string-cons n in
    ap (λ (s : Bytes). strtoull (s ++ rest)) p
    ∙ strtoull-digits (ds ++ rest) d q
    ∙ sym (ap (λ (s : Bytes). saturate false (scan_digits (s ++ rest) 0)) p)
    ∙ ap (saturate false) (
        scan_digits-append (to_string n) rest 0 (to_string-AllDigits n) e
        ∙ scan_digits-to_string n h)
    ∙ saturate-eq n h
