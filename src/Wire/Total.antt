-- ===== src/Wire/Total.antt =====
-- failover_json.cc: the readers on any input.
use color.Prelude.{◌≡◌, refl, Bool, length, arith, some}
use color.Text.{Bytes, codes, bytes_eq}
use color.Core.Checkpoint.{Checkpoint, default_checkpoint, Replay, default_replay}
use color.Wire.Sizes.{parse_string-size, parse_u64-size, skip_value-Skips}
use color.Wire.Parse.{
  Outcome, going, returned, starved, parse_items, parse_object, result, buffered_field,
  default_buffered, checkpoint_field, from_json_checkpoint, event_field, default_event,
  replay_field, from_json_replay,
}
use color.Wire.Parser.{skip_value}
use color.Wire.Ends.{
  skipped-Ends, Ends, Fields, if-Ends, round-Ends, parse_items-Ends, parse_object-Ends,
}

buffered_field-Fields : Fields buffered_field
unfolding buffered_field
buffered_field-Fields k p b =
    if-Ends (length p.rest) (bytes_eq k (codes "seq")) _ _ (λ e. parse_u64-size p)
      (λ e.
        if-Ends (length p.rest) (bytes_eq k (codes "payload")) _ _ (λ e. parse_string-size p)
          (λ e.
            if-Ends (length p.rest) (bytes_eq k (codes "hash")) _ _ (λ e. parse_u64-size p)
              (λ e. skipped-Ends (length p.rest) (skip_value p) _ (skip_value-Skips p))))

checkpoint_field-Fields : Fields checkpoint_field
unfolding checkpoint_field
checkpoint_field-Fields k p out =
    if-Ends (length p.rest) (bytes_eq k (codes "committed_upto")) _ _ (λ e. parse_u64-size p)
      (λ e.
        if-Ends (length p.rest) (bytes_eq k (codes "event_count")) _ _ (λ e. parse_u64-size p)
          (λ e.
            if-Ends (length p.rest) (bytes_eq k (codes "history_hash")) _ _ (λ e. parse_u64-size p)
              (λ e.
                if-Ends (length p.rest) (bytes_eq k (codes "buffer")) _ _
                  (λ e.
                    round-Ends (length p.rest) (length p.rest)
                      (parse_items buffered_field default_buffered p out.buffer)
                      (λ q items. going q (record out { buffer = items }))
                      (λ items. returned (record out { buffer = items }))
                      (parse_items-Ends buffered_field default_buffered p out.buffer
                        buffered_field-Fields)
                      (λ q items read. read) (λ items. omega arith))
                  (λ e. skipped-Ends (length p.rest) (skip_value p) _ (skip_value-Skips p)))))

event_field-Fields : Fields event_field
unfolding event_field
event_field-Fields k p e =
    if-Ends (length p.rest) (bytes_eq k (codes "t")) _ _ (λ _. parse_string-size p)
      (λ _.
        if-Ends (length p.rest) (bytes_eq k (codes "seq")) _ _ (λ _. parse_u64-size p)
          (λ _.
            if-Ends (length p.rest) (bytes_eq k (codes "payload")) _ _ (λ _. parse_string-size p)
              (λ _.
                if-Ends (length p.rest) (bytes_eq k (codes "hash")) _ _ (λ _. parse_u64-size p)
                  (λ _. skipped-Ends (length p.rest) (skip_value p) _ (skip_value-Skips p)))))

replay_field-Fields : Fields replay_field
unfolding replay_field
replay_field-Fields k p out =
    if-Ends (length p.rest) (bytes_eq k (codes "from")) _ _ (λ e. parse_u64-size p)
      (λ e.
        if-Ends (length p.rest) (bytes_eq k (codes "events")) _ _
          (λ e.
            round-Ends (length p.rest) (length p.rest)
              (parse_items event_field default_event p out.events)
              (λ q items. going q (record out { events = items }))
              (λ items. returned (record out { events = items }))
              (parse_items-Ends event_field default_event p out.events event_field-Fields)
              (λ q items read. read) (λ items. omega arith))
          (λ e. skipped-Ends (length p.rest) (skip_value p) _ (skip_value-Skips p)))

-- Both readers return on every input, whether or not it is what a writer printed: no loop runs out
-- of the rounds that the model allows, neither those over fields and items nor the one that skips a
-- value in brackets.
pub from_json-returns :
    (input : Bytes)
    → ((r : Bool × Checkpoint) × (from_json_checkpoint input ≡ some r))
      × ((r : Bool × Replay) × (from_json_replay input ≡ some r))
unfolding from_json_checkpoint from_json_replay
from_json-returns input = (
  returns (parse_object checkpoint_field default_checkpoint input)
      (parse_object-Ends checkpoint_field default_checkpoint input checkpoint_field-Fields),
  returns (parse_object replay_field default_replay input)
      (parse_object-Ends replay_field default_replay input replay_field-Fields),
)
  where
    returns :
        {A : Type 0} (o : Outcome A) → Ends (length input) o → (r : Bool × A) × (result o ≡ some r)
    returns (going p a) h = (_, refl)
    returns (returned a) h = (_, refl)
    returns starved h = absurd (omega arith)
