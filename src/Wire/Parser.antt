-- ===== src/Wire/Parser.antt =====
-- src/wire/failover_json.cc, `Parser`: what is left of the input, and whether all went well.
use color.Prelude.{
  Option, none, some, ℕ, zero, suc, ◌+◌, ◌-◌, ◌*◌, Bool, true, false, ◌&&◌, ◌||◌, [], ◌∷◌, ◌++◌,
  ltb, leb, ◌==◌, if◌then◌else◌, length, take, drop,
}
use color.Text.{Bytes, codes, bytes_eq, is_digit, strtoull}

pub record Parser : Type 0 where
  pub rest : Bytes
  pub ok : Bool

unfoldable pub is_ws : ℕ → Bool
is_ws c = c == b' ' || c == 0x09 || c == 0x0a || c == 0x0d

unfoldable pub skip_ws : Bytes → Bytes
unfolding is_ws
skip_ws [] = []
skip_ws (c ∷ s) = let rest = skip_ws s in if is_ws c then rest else c ∷ s

-- `Parser::ws`
unfoldable pub ws : Parser → Parser
unfolding skip_ws
ws p = record p { rest = skip_ws p.rest }

-- `p < end && *p == c`
unfoldable pub at : ℕ → Bytes → Bool
at c [] = false
at c (d ∷ s) = d == c

-- `p >= end`
unfoldable pub at_end : Bytes → Bool
at_end [] = true
at_end (c ∷ s) = false

-- `Parser::eat`
unfoldable pub eat : ℕ → Parser → Bool × Parser
unfolding ws at
eat c p =
    let q = ws p in
    if at c q.rest
    then (true, record q { rest = drop 1 q.rest })
    else (false, record q { ok = false })

-- `Parser::peek`
unfoldable pub peek : ℕ → Parser → Bool × Parser
unfolding ws at
peek c p = let q = ws p in (at c q.rest, q)

-- Where the loop of `parse_string` stands: at a character, behind a backslash, or at a digit of a
-- `\u` escape with so many left, of the value so far.
pub data Mode : Type 0 where
  plain escaped : Mode
  hex : ℕ → ℕ → Mode

-- `v |= …` for one digit; any other character adds nothing.
unfoldable pub hex_value : ℕ → ℕ
hex_value h =
    if leb b'0' h && leb h b'9'
    then h - b'0'
    else if leb b'a' h && leb h b'f'
    then h - b'a' + 10
    else if leb b'A' h && leb h b'F'
    then h - b'A' + 10
    else 0

-- The character that `\e` stands for.
unfoldable pub unescape_char : ℕ → ℕ
unescape_char e =
    if e == b'n'
    then 0x0a
    else if e == b'r'
    then 0x0d
    else if e == b't'
    then 0x09
    else if e == b'b'
    then 0x08
    else if e == b'f'
    then 0x0c
    else e

-- One character of the loop, with the characters behind it and the string so far.
unfoldable pub string_step : Mode → ℕ → Bytes → Bytes → Mode × Bytes
unfolding hex_value unescape_char
string_step plain c [] s = (plain, s ++ c ∷ [])
string_step plain c (e ∷ r) s = if c == b'\\' then (escaped, s) else (plain, s ++ c ∷ [])
string_step escaped e r s =
    if e == b'u'
    then (if leb 4 (length r) then (hex 4 0, s) else (plain, s))
    else (plain, s ++ unescape_char e ∷ [])
string_step (hex zero v) c r s = (plain, s)
string_step (hex (suc zero) v) c r s =
    let v' = v * 16 + hex_value c in (plain, if ltb v' 0x80 then s ++ v' ∷ [] else s)
string_step (hex (suc (suc n)) v) c r s = (hex (suc n) (v * 16 + hex_value c), s)

unfoldable pub is_plain : Mode → Bool
is_plain plain = true
is_plain escaped = false
is_plain (hex n v) = false

-- `while (p < end && *p != '"')`
unfoldable pub string_loop : Mode → Bytes → Bytes → Bytes × Bytes
unfolding string_step is_plain
string_loop m [] s = (s, [])
string_loop m (c ∷ r) s =
    if is_plain m && c == b'"'
    then (s, c ∷ r)
    else string_loop (string_step m c r s).0 r (string_step m c r s).1

-- `Parser::parse_string`
unfoldable pub parse_string : Parser → Bytes × Parser
unfolding eat string_loop
parse_string p =
    let (opened, q) = eat b'"' p in
    if opened
    then (let (s, rest) = string_loop plain q.rest [] in
        (
          s,
          if at b'"' rest
              then record q { rest = drop 1 rest }
              else record q { rest = rest; ok = false },
        ))
    else ([], q)

unfoldable pub is_number_char : ℕ → Bool
is_number_char c = is_digit c || c == b'-'

-- The digits and minus signs in front, and what is behind them.
unfoldable pub span_number : Bytes → Bytes × Bytes
unfolding is_number_char
span_number [] = ([], [])
span_number (c ∷ s) =
    let (ds, rest) = span_number s in if is_number_char c then (c ∷ ds, rest) else ([], c ∷ s)

-- `Parser::parse_u64`
unfoldable pub parse_u64 : Parser → ℕ × Parser
unfolding ws span_number
parse_u64 p =
    let q = ws p in let (ds, rest) = span_number q.rest in (strtoull ds, record q { rest = rest })

-- `Parser::parse_bool`
unfoldable pub parse_bool : Parser → Bool × Parser
unfolding ws
parse_bool p =
    let q = ws p in
    if leb 4 (length q.rest) && bytes_eq (take 4 q.rest) (codes "true")
    then (true, record q { rest = drop 4 q.rest })
    else if leb 5 (length q.rest) && bytes_eq (take 5 q.rest) (codes "false")
    then (false, record q { rest = drop 5 q.rest })
    else (false, record q { ok = false })

-- The loop of `skip_value` inside brackets; every round consumes a character. `none` would mean that
-- the rounds ran out.
unfoldable pub skip_nested : ℕ → ℕ → ℕ → ℕ → Parser → Option Parser
unfolding at_end
skip_nested zero open_char close depth p = none
skip_nested (suc fuel) open_char close depth p =
    let string = skip_nested fuel open_char close depth (parse_string p).1 in
    let depth' =
      if at open_char p.rest then depth + 1 else if at close p.rest then depth - 1 else depth in
    let other = skip_nested fuel open_char close depth' (record p { rest = drop 1 p.rest }) in
    if at_end p.rest || depth == 0 then some p else if at b'"' p.rest then string else other

-- The last loop: up to a comma or a closing bracket.
unfoldable pub skip_scalar : Bytes → Bytes
skip_scalar [] = []
skip_scalar (c ∷ s) =
    let rest = skip_scalar s in if c == b',' || c == b'}' || c == b']' then c ∷ s else rest

-- `Parser::skip_value`
unfoldable pub skip_value : Parser → Option Parser
unfolding ws at_end
skip_value p =
    let q = ws p in
    let inner = record q { rest = drop 1 q.rest } in
    if at_end q.rest
    then some (record q { ok = false })
    else if at b'"' q.rest
    then some (parse_string q).1
    else if at b'{' q.rest
    then skip_nested (length q.rest) b'{' b'}' 1 inner
    else if at b'[' q.rest
    then skip_nested (length q.rest) b'[' b']' 1 inner
    else some (record q { rest = skip_scalar q.rest })
