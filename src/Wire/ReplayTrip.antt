-- ===== src/Wire/ReplayTrip.antt =====
-- failover_json.cc: `to_json` of a replay, and `from_json_replay`.
use color.Prelude.{
  ℕ, suc, ◌<◌, ◌≡◌, refl, sym, ◌∙◌, Bool, true, false, [], ◌∷◌, ◌++◌, arith, length, All, All-mono,
  Bool-cases, inl, inr, subst, some, u64_mod,
}
use color.Text.{Bytes, codes, to_string, bytes_eq}
use color.Core.Checkpoint.{ReplayEvent, Replay, default_replay}
use color.Wire.Serialize.{quoted, escape, items_json, event_json, replay_json}
use color.Wire.Parser.{parse_string}
use color.Wire.Strings.{IsBytes, parse_string-quoted}
use color.Wire.Numbers.{ready, parse_u64-to_string}
use color.Wire.Loops.{fields_loop-next, fields_loop-last, Reads, Grows, parse_items-items_json}
use color.Wire.Parse.{
  going, fields_loop, parse_object, from_json_replay, event_field, default_event, replay_field,
}
use color.Wire.Keys.{
  comma_ends, brace_ends, seq_key, payload_key, hash_key, length-behind, from_key, events_key,
  t_key,
}

-- An event that the wire can carry: a request has neither a payload nor a hash.
pub record FitsEvent (e : ReplayEvent) : Type 0 where
  pub seq : e.seq < u64_mod
  pub payload : IsBytes e.payload
  pub hash : e.hash < u64_mod
  pub bare : e.is_response ≡ false → (e.payload ≡ []) × (e.hash ≡ 0)

pub record FitsReplay (rp : Replay) : Type 0 where
  pub from : rp.from < u64_mod
  pub events : All FitsEvent rp.events

response_event_json-Reads :
    (q : ℕ) (payload : Bytes) (hash : ℕ)
    → q < u64_mod
    → IsBytes payload
    → hash < u64_mod
    → Reads event_field default_event event_json
        (record { is_response = true; seq = q; payload = payload; hash = hash })
response_event_json-Reads q payload hash fits_seq fits_payload fits_hash rest =
    let fourth = to_string hash ++ b'}' ∷ rest in
    let third = quoted payload (codes ",\"hash\":" ++ fourth) in
    let second = to_string q ++ (codes ",\"payload\":" ++ third) in
    let first = codes "\"r\",\"seq\":" ++ second in
    let fuel = length first in
    let b1 : ReplayEvent = record default_event { is_response = true } in
    let b2 : ReplayEvent = record b1 { seq = q } in
    let b3 : ReplayEvent = record b2 { payload = payload } in
    let b4 : ReplayEvent = record b3 { hash = hash } in
    (
      codes "\"t\":" ++ first,
      (unfold event_json in refl),
      (fields_loop-next (suc (suc (suc (suc fuel)))) event_field (codes "t") first
            (codes "\"seq\":" ++ second) (codes "\"t\":" ++ first) default_event b1 (t_key first)
            (ground arith) (unfold event_field bytes_eq parse_string in refl)
          ∙ fields_loop-next (suc (suc (suc fuel))) event_field (codes "seq") second
              (codes "\"payload\":" ++ third) (codes "\"seq\":" ++ second) b1 b2 (seq_key second)
              (ground arith)
              (unfold event_field bytes_eq in
                rw (parse_u64-to_string q b',' (codes "\"payload\":" ++ third) fits_seq comma_ends)
                  refl)
          ∙ fields_loop-next (suc (suc fuel)) event_field (codes "payload") third
              (codes "\"hash\":" ++ fourth) (codes "\"payload\":" ++ third) b2 b3
              (payload_key third) (ground arith)
              (unfold event_field bytes_eq in
                rw (parse_string-quoted payload (codes ",\"hash\":" ++ fourth) fits_payload) refl)
          ∙ fields_loop-last fuel event_field (codes "hash") fourth rest
              (codes "\"hash\":" ++ fourth) b3 b4 (hash_key fourth) (ground arith)
              (unfold event_field bytes_eq in
                rw (parse_u64-to_string hash b'}' rest fits_hash brace_ends) refl)),
    )

request_event_json-Reads :
    (q : ℕ)
    → q < u64_mod
    → Reads event_field default_event event_json
        (record { is_response = false; seq = q; payload = []; hash = 0 })
request_event_json-Reads q fits_seq rest =
    let second = to_string q ++ b'}' ∷ rest in
    let first = codes "\"R\",\"seq\":" ++ second in
    let fuel = length (codes "R\",\"seq\":" ++ second) in
    let b1 : ReplayEvent = default_event in
    let b2 : ReplayEvent = record b1 { seq = q } in
    (
      codes "\"t\":" ++ first,
      (unfold event_json in refl),
      (fields_loop-next (suc (suc (suc (suc (suc fuel))))) event_field (codes "t") first
            (codes "\"seq\":" ++ second) (codes "\"t\":" ++ first) default_event b1 (t_key first)
            (ground arith) (unfold event_field bytes_eq parse_string in refl)
          ∙ fields_loop-last (suc (suc (suc fuel))) event_field (codes "seq") second rest
              (codes "\"seq\":" ++ second) b1 b2 (seq_key second) (ground arith)
              (unfold event_field bytes_eq in
                rw (parse_u64-to_string q b'}' rest fits_seq brace_ends) refl)),
    )

event_json-Reads : (e : ReplayEvent) → FitsEvent e → Reads event_field default_event event_json e
event_json-Reads e fits = elim (Bool-cases e.is_response) [
  | inl response ↦
      subst
        (λ (b : Bool).
          Reads event_field default_event event_json
            (record { is_response = b; seq = e.seq; payload = e.payload; hash = e.hash }))
        (sym response)
        (response_event_json-Reads e.seq e.payload e.hash fits.seq fits.payload fits.hash)
  | inr request ↦
      (let (no_payload, no_hash) = fits.bare request in
        subst
          (λ (b : Bool).
            Reads event_field default_event event_json
              (record { is_response = b; seq = e.seq; payload = e.payload; hash = e.hash }))
          (sym request)
          (subst
            (λ (h : ℕ).
              Reads event_field default_event event_json
                (record { is_response = false; seq = e.seq; payload = e.payload; hash = h }))
            (sym no_hash)
            (subst
              (λ (s : Bytes).
                Reads event_field default_event event_json
                  (record { is_response = false; seq = e.seq; payload = s; hash = 0 }))
              (sym no_payload) (request_event_json-Reads e.seq fits.seq))))
]

event_json-Grows : Grows event_json
unfolding event_json quoted
event_json-Grows e rest =
    let third = to_string e.hash ++ b'}' ∷ rest in
    let second = escape e.payload ++ b'"' ∷ (codes ",\"hash\":" ++ third) in
    elim (Bool-cases e.is_response) [
      | inl h ↦ rw h (
          omega (
            arith,
            length-behind (to_string e.hash) (b'}' ∷ rest),
            length-behind (escape e.payload) (b'"' ∷ (codes ",\"hash\":" ++ third)),
            length-behind (to_string e.seq) (codes ",\"payload\":" ++ b'"' ∷ second),
          ))
      | inr h ↦ rw h (omega (arith, length-behind (to_string e.seq) (b'}' ∷ rest)))
    ]

replay_json-object :
    (rp : Replay)
    → FitsReplay rp
    → parse_object replay_field default_replay (replay_json rp) ≡ going (ready []) rp
unfolding parse_object replay_json
replay_json-object rp fits =
    let second = codes "[" ++ items_json event_json rp.events (codes "]}") in
    let first = to_string rp.from ++ (codes ",\"events\":" ++ second) in
    let fuel = length (codes "m\":" ++ first) in
    let b1 : Replay = record default_replay { from = rp.from } in
    let fields : fields_loop (suc (suc (suc (suc (suc fuel))))) replay_field
          (ready (codes "\"from\":" ++ first)) default_replay
        ≡ going (ready (codes "}")) rp =
      (fields_loop-next (suc (suc (suc (suc fuel)))) replay_field (codes "from") first
          (codes "\"events\":" ++ second) (codes "\"from\":" ++ first) default_replay b1
          (from_key first) (ground arith)
          (unfold replay_field bytes_eq in
            rw
              (parse_u64-to_string rp.from b',' (codes "\"events\":" ++ second) fits.from
                comma_ends)
              refl)
        ∙ fields_loop-last (suc (suc fuel)) replay_field (codes "events") second []
            (codes "\"events\":" ++ second) b1 rp (events_key second) (ground arith)
            (unfold replay_field bytes_eq in
              rw
                (parse_items-items_json event_field default_event event_json rp.events (codes "}")
                  (All-mono rp.events event_json-Reads fits.events) event_json-Grows)
                refl)) in
    rw fields refl

-- A replay whose numbers are 64-bit words, whose payloads are strings of bytes and whose requests
-- carry neither payload nor hash is read back by from_json_replay from what to_json writes: it
-- returns true, and the replay read is the one written, its events in the same order.
pub from_json_replay-replay_json :
    (rp : Replay) → FitsReplay rp → from_json_replay (replay_json rp) ≡ some (true, rp)
unfolding from_json_replay
from_json_replay-replay_json rp fits = rw (replay_json-object rp fits) refl
