-- ===== src/Wire/Parse.antt =====
-- src/wire/failover_json.cc, the readers: `from_json_checkpoint` and `from_json_replay`.
use color.Prelude.{
  Option, some, none, ℕ, zero, suc, Bool, true, false, not, ◌||◌, List, [], ◌∷◌, ◌++◌,
  if◌then◌else◌, length,
}
use color.Text.{Bytes, codes, bytes_eq}
use color.Core.Checkpoint.{
  BufferedResponse, Checkpoint, default_checkpoint, ReplayEvent, Replay, default_replay,
}
use color.Wire.Parser.{Parser, eat, peek, parse_string, parse_u64, skip_value}

-- How a piece of a reader ends: it goes on behind the piece, it has returned false, or the fuel of
-- the model has run out; `A` is what was read so far.
pub data Outcome (A : Type 0) : Type 0 where
  going : Parser → A → Outcome A
  returned : A → Outcome A
  starved : Outcome A

-- `p.skip_value();` as a body of a ladder.
unfoldable pub skipped : {A : Type 0} → Option Parser → A → Outcome A
skipped none a = starved
skipped (some p) a = going p a

-- `if (!p.peek(c)) p.eat(',')`
unfoldable pub comma : ℕ → Parser → Parser
unfolding eat peek
comma c p = let (close, q) = peek c p in if close then q else (eat b',' q).1

-- `while (!p.peek('}') && p.ok) { key; ':'; field; comma }`, for the body `field` of the ladder.
unfoldable pub fields_loop :
    {A : Type 0} → ℕ → (Bytes → Parser → A → Outcome A) → Parser → A → Outcome A
unfolding eat peek parse_string comma
fields_loop zero field p a = starved
fields_loop {A} (suc fuel) field p a =
    let q = (peek b'}' p).1 in
    let key = parse_string q in
    let colon = eat b':' key.1 in
    let round : Outcome A = elim (field key.0 colon.1 a) [
      | going r a' ↦ fields_loop fuel field (comma b'}' r) a'
      | returned a' ↦ returned a'
      | starved ↦ starved
    ] in
    if (peek b'}' p).0 || not q.ok then going q a else if colon.0 then round else returned a

-- `while (!p.peek(']') && p.ok) { '{'; fields; '}'; push_back; comma }`, for items that start as
-- `empty`; when the fields return, the item is not pushed.
unfoldable pub items_loop :
    {A : Type 0} → ℕ → (Bytes → Parser → A → Outcome A) → A → Parser → List A → Outcome (List A)
unfolding eat peek comma
items_loop zero field empty p items = starved
items_loop {A} (suc fuel) field empty p items =
    let q = (peek b']' p).1 in
    let brace = eat b'{' q in
    let round : Outcome (List A) =
      elim (fields_loop (suc (length brace.1.rest)) field brace.1 empty) [
        | going r a ↦ items_loop fuel field empty (comma b']' (eat b'}' r).1) (items ++ a ∷ [])
        | returned a ↦ returned items
        | starved ↦ starved
      ] in
    if (peek b']' p).0 || not q.ok then going q items else if brace.0 then round else returned items

-- `if (!p.eat('[')) return false; …; p.eat(']')`
unfoldable pub parse_items :
    {A : Type 0} → (Bytes → Parser → A → Outcome A) → A → Parser → List A → Outcome (List A)
unfolding eat
parse_items field empty p items =
    let bracket = eat b'[' p in
    if bracket.0
    then elim (items_loop (suc (length bracket.1.rest)) field empty bracket.1 items) [
      | going q items' ↦ going (eat b']' q).1 items'
      | returned items' ↦ returned items'
      | starved ↦ starved
    ]
    else returned items

-- The body of `from_json_*` round its loop: the value read, and what is returned. `none` would mean
-- that the fuel ran out.
unfoldable pub parse_object :
    {A : Type 0} → (Bytes → Parser → A → Outcome A) → A → Bytes → Outcome A
unfolding eat
parse_object field empty input =
    let brace = eat b'{' (record { rest = input; ok = true }) in
    if brace.0
    then elim (fields_loop (suc (length brace.1.rest)) field brace.1 empty) [
      | going q a ↦ going (eat b'}' q).1 a
      | returned a ↦ returned a
      | starved ↦ starved
    ]
    else returned empty

-- `return p.ok;` behind the loop, or `return false;`, with what `out` holds then.
abbrev pub result : {A : Type 0} → Outcome A → Option (Bool × A)
result (going p a) = some (p.ok, a)
result (returned a) = some (false, a)
result starved = none

-- The ladder for an entry of `buffer`.
unfoldable pub buffered_field : Bytes → Parser → BufferedResponse → Outcome BufferedResponse
unfolding skipped
buffered_field k p b =
    if bytes_eq k (codes "seq")
    then going (parse_u64 p).1 (record b { seq = (parse_u64 p).0 })
    else if bytes_eq k (codes "payload")
    then going (parse_string p).1 (record b { payload = (parse_string p).0 })
    else if bytes_eq k (codes "hash")
    then going (parse_u64 p).1 (record b { hash = (parse_u64 p).0 })
    else skipped (skip_value p) b

-- `BufferedResponse b{}`
abbrev pub default_buffered : BufferedResponse
default_buffered = record { seq = 0; payload = []; hash = 0 }

-- The ladder of `from_json_checkpoint`.
unfoldable pub checkpoint_field : Bytes → Parser → Checkpoint → Outcome Checkpoint
unfolding skipped
checkpoint_field key p out =
    if bytes_eq key (codes "committed_upto")
    then going (parse_u64 p).1 (record out { committed_upto = (parse_u64 p).0 })
    else if bytes_eq key (codes "event_count")
    then going (parse_u64 p).1 (record out { event_count = (parse_u64 p).0 })
    else if bytes_eq key (codes "history_hash")
    then going (parse_u64 p).1 (record out { history_hash = (parse_u64 p).0 })
    else if bytes_eq key (codes "buffer")
    then elim (parse_items buffered_field default_buffered p out.buffer) [
      | going q items ↦ going q (record out { buffer = items })
      | returned items ↦ returned (record out { buffer = items })
      | starved ↦ starved
    ]
    else skipped (skip_value p) out

-- `from_json_checkpoint`: what it returns, and `out`.
unfoldable pub from_json_checkpoint : Bytes → Option (Bool × Checkpoint)
from_json_checkpoint input = result (parse_object checkpoint_field default_checkpoint input)

-- The ladder for an entry of `events`.
unfoldable pub event_field : Bytes → Parser → ReplayEvent → Outcome ReplayEvent
unfolding skipped
event_field k p e =
    if bytes_eq k (codes "t")
    then going (parse_string p).1
        (record e { is_response = bytes_eq (parse_string p).0 (codes "r") })
    else if bytes_eq k (codes "seq")
    then going (parse_u64 p).1 (record e { seq = (parse_u64 p).0 })
    else if bytes_eq k (codes "payload")
    then going (parse_string p).1 (record e { payload = (parse_string p).0 })
    else if bytes_eq k (codes "hash")
    then going (parse_u64 p).1 (record e { hash = (parse_u64 p).0 })
    else skipped (skip_value p) e

-- `ReplayEvent e{}`
abbrev pub default_event : ReplayEvent
default_event = record { is_response = false; seq = 0; payload = []; hash = 0 }

-- The ladder of `from_json_replay`.
unfoldable pub replay_field : Bytes → Parser → Replay → Outcome Replay
unfolding skipped
replay_field key p out =
    if bytes_eq key (codes "from")
    then going (parse_u64 p).1 (record out { from = (parse_u64 p).0 })
    else if bytes_eq key (codes "events")
    then elim (parse_items event_field default_event p out.events) [
      | going q items ↦ going q (record out { events = items })
      | returned items ↦ returned (record out { events = items })
      | starved ↦ starved
    ]
    else skipped (skip_value p) out

-- `from_json_replay`
unfoldable pub from_json_replay : Bytes → Option (Bool × Replay)
from_json_replay input = result (parse_object replay_field default_replay input)
