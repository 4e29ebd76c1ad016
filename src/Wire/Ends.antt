-- ===== src/Wire/Ends.antt =====
-- failover_json.cc: the loops of the readers, over any body of a field.
use color.Prelude.{
  Option, none, some, ℕ, zero, suc, ◌≤◌, ◌<◌, ◌≡◌, refl, Bool, true, false, not, ◌||◌, List, [],
  ◌∷◌, ◌++◌, if◌then◌else◌, length, arith,
}
use color.Text.{Bytes}
use color.Wire.Parser.{Parser, eat, peek, parse_string}
use color.Wire.Sizes.{Skips, size, eat-size, eat-shorter, peek-size, parse_string-size}
use color.Wire.Parse.{
  skipped, Outcome, going, returned, starved, comma, fields_loop, items_loop, parse_items,
  parse_object,
}

-- A piece that ends, with at most `n` characters left.
abbrev pub Ends : {A : Type 0} → ℕ → Outcome A → Type 0
Ends n (going p a) = length p.rest ≤ n
Ends n (returned a) = 0 ≤ n
Ends n starved = 1 ≤ 0

-- A body of the ladder ends, wherever it starts.
abbrev pub Fields : {A : Type 0} → (Bytes → Parser → A → Outcome A) → Type 0
Fields {A} field = (k : Bytes) (p : Parser) (a : A) → Ends (length p.rest) (field k p a)

comma-size : (c : ℕ) (p : Parser) → size (comma c p) ≤ size p
unfolding comma
comma-size c p = ground (arith, peek-size c p, eat-size b',' (peek c p).1)

module _ {A : Type 0} where
  Ends-le : (m n : ℕ) (o : Outcome A) → m ≤ n → Ends m o → Ends n o
  Ends-le m n (going p a) le h = omega arith
  Ends-le m n (returned a) le h = omega arith
  Ends-le m n starved le h = h

  pub if-Ends :
      (n : ℕ) (b : Bool) (x y : Outcome A)
      → (b ≡ true → Ends n x)
      → (b ≡ false → Ends n y)
      → Ends n (if b then x else y)
  if-Ends n true x y h k = h refl
  if-Ends n false x y h k = k refl

  -- What follows a piece that ends, ends.
  pub round-Ends :
      {B : Type 0} (m n : ℕ) (o : Outcome B) (next : Parser → B → Outcome A) (back : B → Outcome A)
      → Ends m o
      → ((r : Parser) (b : B) → length r.rest ≤ m → Ends n (next r b))
      → ((b : B) → Ends n (back b))
      → Ends n (elim o [ going r b ↦ next r b | returned b ↦ back b | starved ↦ starved ])
  round-Ends m n (going r b) next back h k l = k r b h
  round-Ends m n (returned b) next back h k l = l b
  round-Ends m n starved next back h k l = h

  fields_loop-Ends :
      (fuel : ℕ) (field : Bytes → Parser → A → Outcome A) (p : Parser) (a : A)
      → Fields field
      → length p.rest < fuel
      → Ends (length p.rest) (fields_loop fuel field p a)
  unfolding fields_loop
  fields_loop-Ends zero field p a h le = absurd (omega arith)
  fields_loop-Ends (suc fuel) field p a h le =
      let q = (peek b'}' p).1 in
      let key = parse_string q in
      let colon = eat b':' key.1 in
      let start : length q.rest ≤ length p.rest = peek-size b'}' p in
      let behind_key : length key.1.rest ≤ length q.rest = parse_string-size q in
      let behind_colon = eat-shorter b':' key.1 in
      let body = h key.0 colon.1 a in
      if-Ends (length p.rest) ((peek b'}' p).0 || not q.ok) _ _ (λ e. start)
        (λ e.
          if-Ends (length p.rest) colon.0 _ _
            (λ eaten.
              let shorter : length colon.1.rest < length key.1.rest = behind_colon eaten in
              round-Ends (length colon.1.rest) (length p.rest) (field key.0 colon.1 a)
                (λ r a'. fields_loop fuel field (comma b'}' r) a') returned body
                (λ r a' read.
                  let next : length (comma b'}' r).rest ≤ length r.rest = comma-size b'}' r in
                  Ends-le (length (comma b'}' r).rest) (length p.rest)
                    (fields_loop fuel field (comma b'}' r) a') (omega arith)
                    (fields_loop-Ends fuel field (comma b'}' r) a' h (omega arith)))
                (λ a'. omega arith))
            (λ e. omega arith))

module _ {A : Type 0} where
  items_loop-Ends :
      (fuel : ℕ) (field : Bytes → Parser → A → Outcome A) (empty : A) (p : Parser) (items : List A)
      → Fields field
      → length p.rest < fuel
      → Ends (length p.rest) (items_loop fuel field empty p items)
  unfolding items_loop
  items_loop-Ends zero field empty p items h le = absurd (omega arith)
  items_loop-Ends (suc fuel) field empty p items h le =
      let q = (peek b']' p).1 in
      let brace = eat b'{' q in
      let start : length q.rest ≤ length p.rest = peek-size b']' p in
      let behind_brace = eat-shorter b'{' q in
      let fields =
        fields_loop-Ends (suc (length brace.1.rest)) field brace.1 empty h (omega arith) in
      if-Ends (length p.rest) ((peek b']' p).0 || not q.ok) _ _ (λ e. start)
        (λ e.
          if-Ends (length p.rest) brace.0 _ _
            (λ eaten.
              let shorter : length brace.1.rest < length q.rest = behind_brace eaten in
              round-Ends (length brace.1.rest) (length p.rest)
                (fields_loop (suc (length brace.1.rest)) field brace.1 empty)
                (λ r a. items_loop fuel field empty (comma b']' (eat b'}' r).1) (items ++ a ∷ []))
                (λ a. returned items) fields
                (λ r a read.
                  let closed : length (eat b'}' r).1.rest ≤ length r.rest = eat-size b'}' r in
                  let next : length (comma b']' (eat b'}' r).1).rest ≤ length (eat b'}' r).1.rest =
                    comma-size b']' (eat b'}' r).1 in
                  Ends-le (length (comma b']' (eat b'}' r).1).rest) (length p.rest)
                    (items_loop fuel field empty (comma b']' (eat b'}' r).1) (items ++ a ∷ []))
                    (omega arith)
                    (items_loop-Ends fuel field empty (comma b']' (eat b'}' r).1) (items ++ a ∷ [])
                      h (omega arith)))
                (λ a. omega arith))
            (λ e. omega arith))

  pub parse_items-Ends :
      (field : Bytes → Parser → A → Outcome A) (empty : A) (p : Parser) (items : List A)
      → Fields field
      → Ends (length p.rest) (parse_items field empty p items)
  unfolding parse_items
  parse_items-Ends field empty p items h =
      let bracket = eat b'[' p in
      let start : length bracket.1.rest ≤ length p.rest = eat-size b'[' p in
      if-Ends (length p.rest) bracket.0 _ _
        (λ e.
          round-Ends (length bracket.1.rest) (length p.rest)
            (items_loop (suc (length bracket.1.rest)) field empty bracket.1 items)
            (λ q items'. going (eat b']' q).1 items') returned
            (items_loop-Ends (suc (length bracket.1.rest)) field empty bracket.1 items h
              (omega arith))
            (λ q items' read.
              let closed : length (eat b']' q).1.rest ≤ length q.rest = eat-size b']' q in
              omega arith)
            (λ items'. omega arith))
        (λ e. omega arith)

  pub parse_object-Ends :
      (field : Bytes → Parser → A → Outcome A) (empty : A) (input : Bytes)
      → Fields field
      → Ends (length input) (parse_object field empty input)
  unfolding parse_object
  parse_object-Ends field empty input h =
      let brace = eat b'{' (record { rest = input; ok = true }) in
      let start : length brace.1.rest ≤ length input =
        eat-size b'{' (record { rest = input; ok = true }) in
      if-Ends (length input) brace.0 _ _
        (λ e.
          round-Ends (length brace.1.rest) (length input)
            (fields_loop (suc (length brace.1.rest)) field brace.1 empty)
            (λ q a. going (eat b'}' q).1 a) returned
            (fields_loop-Ends (suc (length brace.1.rest)) field brace.1 empty h (omega arith))
            (λ q a read.
              let closed : length (eat b'}' q).1.rest ≤ length q.rest = eat-size b'}' q in
              omega arith)
            (λ a. omega arith))
        (λ e. omega arith)

pub skipped-Ends :
    {A : Type 0} (n : ℕ) (o : Option Parser) (a : A) → Skips n o → Ends n (skipped o a)
unfolding skipped
skipped-Ends n none a h = h
skipped-Ends n (some q) a h = h
