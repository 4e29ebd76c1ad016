-- ===== src/Text.antt =====
-- `std::string` as a list of bytes, with the two conversions of the standard library that the
-- source calls: `std::to_string` on `uint64_t` and `strtoull` in base ten.
use Prim.Native.Char.{code}
use Prim.Native.String.{String}
use color.Prelude.{
  ℕ, zero, suc, ◌+◌, ◌-◌, ◌*◌, ◌/◌, ◌%◌, ◌≡◌, refl, Bool, true, false, ◌&&◌, ◌||◌, List, [], ◌∷◌,
  ◌++◌, arith, ltb, leb, ◌==◌, if◌then◌else◌, u64_mod,
}
pub mod Decimal

abbrev pub Bytes : Type 0
Bytes = List ℕ

-- The bytes of an ASCII literal.
abbrev pub codes : String → Bytes
codes String.[] = []
codes (String.◌∷◌ letter literal) = code letter ∷ codes literal

-- `s == t`
unfoldable pub bytes_eq : Bytes → Bytes → Bool
bytes_eq [] [] = true
bytes_eq [] (b ∷ t) = false
bytes_eq (a ∷ s) [] = false
bytes_eq (a ∷ s) (b ∷ t) = a == b && bytes_eq s t

-- The last digit is put in front of `out`, then the digits before it.
unfoldable pub digits : ℕ → ℕ → Bytes → Bytes
digits zero n out = out
digits (suc f) n out =
    let d = b'0' + n % 10 in
    let rest = digits f (n / 10) (d ∷ out) in if ltb n 10 then d ∷ out else rest

-- A `uint64_t` has at most twenty digits.
unfoldable pub to_string : ℕ → Bytes
to_string n = digits 20 n []

unfoldable pub is_digit : ℕ → Bool
is_digit c = leb b'0' c && leb c b'9'

-- `isspace` in the "C" locale
unfoldable pub is_space : ℕ → Bool
is_space c = c == 0x20 || (leb 0x09 c && leb c 0x0d)

-- The value that leading digits spell after `n`, with no bound.
unfoldable pub scan_digits : Bytes → ℕ → ℕ
unfolding is_digit
scan_digits [] n = n
scan_digits (c ∷ s) n =
    let rest = scan_digits s (n * 10 + (c - b'0')) in if is_digit c then rest else n

-- A value out of range is ULLONG_MAX; a minus sign negates the result in `unsigned long long`.
unfoldable pub saturate : Bool → ℕ → ℕ
saturate negative n =
    if ltb n u64_mod then (if negative then (u64_mod - n) % u64_mod else n) else u64_mod - 1

unfoldable pub signed_digits : Bytes → ℕ
unfolding scan_digits saturate
signed_digits [] = 0
signed_digits (c ∷ s) =
    if c == b'-'
    then saturate true (scan_digits s 0)
    else if c == b'+'
    then saturate false (scan_digits s 0)
    else saturate false (scan_digits (c ∷ s) 0)

unfoldable pub strtoull : Bytes → ℕ
unfolding signed_digits is_space
strtoull [] = 0
strtoull (c ∷ s) = let rest = strtoull s in if is_space c then rest else signed_digits (c ∷ s)
