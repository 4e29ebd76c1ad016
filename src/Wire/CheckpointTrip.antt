-- ===== src/Wire/CheckpointTrip.antt =====
-- failover_json.cc: `to_json` of a checkpoint, and `from_json_checkpoint`.
use color.Prelude.{
  suc, ◌<◌, ◌≡◌, refl, ◌∙◌, true, [], ◌∷◌, ◌++◌, arith, length, All, All-mono, some, u64_mod,
}
use color.Text.{Bytes, codes, to_string, bytes_eq}
use color.Core.Checkpoint.{BufferedResponse, Checkpoint, default_checkpoint}
use color.Wire.Serialize.{quoted, escape, items_json, buffered_json, checkpoint_json}
use color.Wire.Parser.{skip_value, at, skip_scalar}
use color.Wire.Strings.{IsBytes, parse_string-quoted}
use color.Wire.Numbers.{ready, parse_u64-to_string}
use color.Wire.Loops.{fields_loop-next, fields_loop-last, Reads, Grows, parse_items-items_json}
use color.Wire.Parse.{
  skipped, going, fields_loop, buffered_field, default_buffered, from_json_checkpoint,
  checkpoint_field, parse_object,
}
use color.Wire.Keys.{
  comma_ends, brace_ends, seq_key, payload_key, hash_key, version_key, committed_upto_key,
  event_count_key, history_hash_key, buffer_key, length-behind,
}

-- A buffered response that C++ can hold: 64-bit words and bytes.
pub record FitsBuffered (b : BufferedResponse) : Type 0 where
  pub seq : b.seq < u64_mod
  pub payload : IsBytes b.payload
  pub hash : b.hash < u64_mod

buffered_json-Reads :
    (b : BufferedResponse) → FitsBuffered b → Reads buffered_field default_buffered buffered_json b
unfolding buffered_json
buffered_json-Reads b fits rest =
    let third = to_string b.hash ++ b'}' ∷ rest in
    let second = quoted b.payload (codes ",\"hash\":" ++ third) in
    let first = to_string b.seq ++ (codes ",\"payload\":" ++ second) in
    let fuel = length (codes ":" ++ first) in
    let b1 : BufferedResponse = record default_buffered { seq = b.seq } in
    let b2 : BufferedResponse = record b1 { payload = b.payload } in
    (
      codes "\"seq\":" ++ first,
      refl,
      (fields_loop-next (suc (suc (suc (suc (suc fuel))))) buffered_field (codes "seq") first
            (codes "\"payload\":" ++ second) (codes "\"seq\":" ++ first) default_buffered b1
            (seq_key first) (ground arith)
            (unfold buffered_field bytes_eq in
              rw
                (parse_u64-to_string b.seq b',' (codes "\"payload\":" ++ second) fits.seq
                  comma_ends)
                refl))
          ∙ fields_loop-next (suc (suc (suc (suc fuel)))) buffered_field (codes "payload") second
              (codes "\"hash\":" ++ third) (codes "\"payload\":" ++ second) b1 b2
              (payload_key second) (ground arith)
              (unfold buffered_field bytes_eq in
                rw (parse_string-quoted b.payload (codes ",\"hash\":" ++ third) fits.payload) refl)
          ∙ fields_loop-last (suc (suc fuel)) buffered_field (codes "hash") third rest
              (codes "\"hash\":" ++ third) b2 b (hash_key third) (ground arith)
              (unfold buffered_field bytes_eq in
                rw (parse_u64-to_string b.hash b'}' rest fits.hash brace_ends) refl),
    )

buffered_json-Grows : Grows buffered_json
unfolding buffered_json quoted
buffered_json-Grows b rest =
    let third = to_string b.hash ++ b'}' ∷ rest in
    let second = escape b.payload ++ b'"' ∷ (codes ",\"hash\":" ++ third) in
    omega (
      arith,
      length-behind (to_string b.hash) (b'}' ∷ rest),
      length-behind (escape b.payload) (b'"' ∷ (codes ",\"hash\":" ++ third)),
      length-behind (to_string b.seq) (codes ",\"payload\":" ++ b'"' ∷ second),
    )

-- A checkpoint that C++ can hold.
pub record FitsCheckpoint (cp : Checkpoint) : Type 0 where
  pub committed_upto : cp.committed_upto < u64_mod
  pub event_count : cp.event_count < u64_mod
  pub history_hash : cp.history_hash < u64_mod
  pub buffer : All FitsBuffered cp.buffer

version_field :
    (r : Bytes) (cp : Checkpoint)
    → checkpoint_field (codes "version") (ready (codes "1," ++ r)) cp ≡ going (ready (b',' ∷ r)) cp
unfolding checkpoint_field skipped bytes_eq skip_value at skip_scalar
version_field r cp = refl

checkpoint_json-object :
    (cp : Checkpoint)
    → FitsCheckpoint cp
    → parse_object checkpoint_field default_checkpoint (checkpoint_json cp) ≡ going (ready []) cp
unfolding parse_object checkpoint_json
checkpoint_json-object cp fits =
    let fifth = codes "[" ++ items_json buffered_json cp.buffer (codes "]}") in
    let fourth = to_string cp.history_hash ++ (codes ",\"buffer\":" ++ fifth) in
    let third = to_string cp.event_count ++ (codes ",\"history_hash\":" ++ fourth) in
    let second = to_string cp.committed_upto ++ (codes ",\"event_count\":" ++ third) in
    let first = codes "1,\"committed_upto\":" ++ second in
    let fuel = length (codes "ion\":" ++ first) in
    let b1 : Checkpoint = record default_checkpoint { committed_upto = cp.committed_upto } in
    let b2 : Checkpoint = record b1 { event_count = cp.event_count } in
    let b3 : Checkpoint = record b2 { history_hash = cp.history_hash } in
    let version : fields_loop (suc (suc (suc (suc (suc (suc fuel)))))) checkpoint_field
          (ready (codes "\"version\":" ++ first)) default_checkpoint
        ≡ going (ready (codes "}")) cp =
      (fields_loop-next (suc (suc (suc (suc (suc fuel))))) checkpoint_field (codes "version") first
          (codes "\"committed_upto\":" ++ second) (codes "\"version\":" ++ first) default_checkpoint
          default_checkpoint (version_key first) (ground arith)
          (version_field (codes "\"committed_upto\":" ++ second) default_checkpoint)
        ∙ fields_loop-next (suc (suc (suc (suc fuel)))) checkpoint_field (codes "committed_upto")
            second (codes "\"event_count\":" ++ third) (codes "\"committed_upto\":" ++ second)
            default_checkpoint b1 (committed_upto_key second) (ground arith)
            (unfold checkpoint_field bytes_eq in
              rw
                (parse_u64-to_string cp.committed_upto b',' (codes "\"event_count\":" ++ third)
                  fits.committed_upto comma_ends)
                refl)
        ∙ fields_loop-next (suc (suc (suc fuel))) checkpoint_field (codes "event_count") third
            (codes "\"history_hash\":" ++ fourth) (codes "\"event_count\":" ++ third) b1 b2
            (event_count_key third) (ground arith)
            (unfold checkpoint_field bytes_eq in
              rw
                (parse_u64-to_string cp.event_count b',' (codes "\"history_hash\":" ++ fourth)
                  fits.event_count comma_ends)
                refl)
        ∙ fields_loop-next (suc (suc fuel)) checkpoint_field (codes "history_hash") fourth
            (codes "\"buffer\":" ++ fifth) (codes "\"history_hash\":" ++ fourth) b2 b3
            (history_hash_key fourth) (ground arith)
            (unfold checkpoint_field bytes_eq in
              rw
                (parse_u64-to_string cp.history_hash b',' (codes "\"buffer\":" ++ fifth)
                  fits.history_hash comma_ends)
                refl)
        ∙ fields_loop-last fuel checkpoint_field (codes "buffer") fifth []
            (codes "\"buffer\":" ++ fifth) b3 cp (buffer_key fifth) (ground arith)
            (unfold checkpoint_field bytes_eq in
              rw
                (parse_items-items_json buffered_field default_buffered buffered_json cp.buffer
                  (codes "}") (All-mono cp.buffer buffered_json-Reads fits.buffer)
                  buffered_json-Grows)
                refl)) in
    rw version refl

-- A checkpoint whose numbers are 64-bit words and whose payloads are strings of bytes, whatever
-- characters those hold, is read back by from_json_checkpoint from what to_json writes: it returns
-- true, and the checkpoint read is the one written, its buffer in the same order.
pub from_json_checkpoint-checkpoint_json :
    (cp : Checkpoint)
    → FitsCheckpoint cp
    → from_json_checkpoint (checkpoint_json cp) ≡ some (true, cp)
unfolding from_json_checkpoint
from_json_checkpoint-checkpoint_json cp fits = rw (checkpoint_json-object cp fits) refl
