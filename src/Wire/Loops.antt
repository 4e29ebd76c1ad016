-- ===== src/Wire/Loops.antt =====
-- One round of `fields_loop` and of `items_loop` on what the writers print.
use color.Prelude.{
  ℕ, zero, suc, ◌≤◌, ◌<◌, ◌≡◌, refl, ap, ◌∙◌, false, List, [], ◌∷◌, ◌++◌, ◌==◌, arith, length, All,
  append_assoc,
}
use color.Text.{Bytes}
use color.Wire.Serialize.{quoted, items_tail, items_json}
use color.Wire.Parser.{Parser}
use color.Wire.Strings.{IsBytes, string_loop-escape}
use color.Wire.Numbers.{ready}
use color.Wire.Parse.{Outcome, going, comma, fields_loop, items_loop, parse_items}

-- A field with another one behind it.
pub fields_loop-next :
    {A : Type 0} (fuel : ℕ) (field : Bytes → Parser → A → Outcome A) (k v r s : Bytes) (a a' : A)
    → s ≡ quoted k (b':' ∷ v)
    → IsBytes k
    → field k (ready v) a ≡ going (ready (b',' ∷ r)) a'
    → fields_loop (suc fuel) field (ready s) a ≡ fields_loop fuel field (ready r) a'
unfolding fields_loop quoted
fields_loop-next fuel field k v r s a a' q h e =
    rw (q, string_loop-escape k (b':' ∷ v) [] h, e) refl

-- The last field of an object.
pub fields_loop-last :
    {A : Type 0} (fuel : ℕ) (field : Bytes → Parser → A → Outcome A) (k v r s : Bytes) (a a' : A)
    → s ≡ quoted k (b':' ∷ v)
    → IsBytes k
    → field k (ready v) a ≡ going (ready (b'}' ∷ r)) a'
    → fields_loop (suc (suc fuel)) field (ready s) a ≡ going (ready (b'}' ∷ r)) a'
unfolding fields_loop quoted
fields_loop-last fuel field k v r s a a' q h e =
    rw (q, string_loop-escape k (b':' ∷ v) [] h, e) refl

-- What `items_loop` needs of an entry that it reads.
abbrev pub Reads :
    {A : Type 0} → (Bytes → Parser → A → Outcome A) → A → (A → Bytes → Bytes) → A → Type 0
Reads field empty write a =
    (rest : Bytes)
    → (body : Bytes) × (write a rest ≡ b'{' ∷ body)
      × (fields_loop (suc (length body)) field (ready body) empty ≡ going (ready (b'}' ∷ rest)) a)

items_loop-item :
    {A : Type 0} (field : Bytes → Parser → A → Outcome A) (empty : A) (fuel : ℕ) (a : A)
    (done : List A) (body rest : Bytes)
    → fields_loop (suc (length body)) field (ready body) empty ≡ going (ready (b'}' ∷ rest)) a
    → items_loop (suc fuel) field empty (ready (b'{' ∷ body)) done
      ≡ items_loop fuel field empty (comma b']' (ready rest)) (done ++ a ∷ [])
unfolding items_loop
items_loop-item field empty fuel a done body rest f = rw f refl

comma-next : (c : ℕ) (s : Bytes) → (b',' == c) ≡ false → comma c (ready (b',' ∷ s)) ≡ ready s
unfolding comma
comma-next c s h = rw h refl

items_loop-tail :
    {A : Type 0} (field : Bytes → Parser → A → Outcome A) (empty : A) (write : A → Bytes → Bytes)
    (fuel : ℕ) (a : A) (items done : List A) (rest : Bytes)
    → Reads field empty write a
    → All (Reads field empty write) items
    → length items < fuel
    → items_loop
        (suc fuel)
        field
        empty
        (ready (write a (items_tail write items (b']' ∷ rest))))
        done
      ≡ going (ready (b']' ∷ rest)) (done ++ a ∷ items)
unfolding items_tail
items_loop-tail field empty write zero a items done rest h hs le = elim le [ ]
items_loop-tail field empty write (suc fuel) a [] done rest h hs le =
    let (body, e, f) = h (b']' ∷ rest) in
    ap (λ (s : Bytes). items_loop (suc (suc fuel)) field empty (ready s) done) e
    ∙ items_loop-item field empty (suc fuel) a done body (b']' ∷ rest) f
    ∙ unfold items_loop comma in refl
items_loop-tail field empty write (suc fuel) a (b ∷ items) done rest h hs le =
    let tail = write b (items_tail write items (b']' ∷ rest)) in
    let (body, e, f) = h (b',' ∷ tail) in
    ap (λ (s : Bytes). items_loop (suc (suc fuel)) field empty (ready s) done) e
    ∙ items_loop-item field empty (suc fuel) a done body (b',' ∷ tail) f
    ∙ ap (λ (p : Parser). items_loop (suc fuel) field empty p (done ++ a ∷ []))
        (comma-next b']' tail refl)
    ∙ items_loop-tail field empty write fuel b items (done ++ a ∷ []) rest hs.0 hs.1 (omega arith)
    ∙ ap (going (ready (b']' ∷ rest))) (append_assoc done (a ∷ []) (b ∷ items))

-- Each entry takes a character at least.
abbrev pub Grows : {A : Type 0} → (A → Bytes → Bytes) → Type 0
Grows {A} write = (a : A) (rest : Bytes) → length rest < length (write a rest)

length-items_tail :
    {A : Type 0} (write : A → Bytes → Bytes) (items : List A) (rest : Bytes)
    → Grows write
    → length items ≤ length (items_tail write items rest)
unfolding items_tail
length-items_tail write [] rest g = omega arith
length-items_tail write (a ∷ items) rest g =
    let more = length-items_tail write items rest g in
    let one = g a (items_tail write items rest) in omega arith

-- A list in brackets is read back.
pub parse_items-items_json :
    {A : Type 0} (field : Bytes → Parser → A → Outcome A) (empty : A) (write : A → Bytes → Bytes)
    (items : List A) (rest : Bytes)
    → All (Reads field empty write) items
    → Grows write
    → parse_items field empty (ready (b'[' ∷ items_json write items (b']' ∷ rest))) []
      ≡ going (ready rest) items
unfolding parse_items items_json
parse_items-items_json field empty write [] rest h g = unfold items_loop in refl
parse_items-items_json field empty write (a ∷ items) rest h g =
    let enough : length items < length (write a (items_tail write items (b']' ∷ rest))) =
      (let more = length-items_tail write items (b']' ∷ rest) g in
        let one = g a (items_tail write items (b']' ∷ rest)) in omega arith) in
    rw
      (items_loop-tail field empty write (length (write a (items_tail write items (b']' ∷ rest)))) a
        items [] rest h.0 h.1 enough)
      refl
