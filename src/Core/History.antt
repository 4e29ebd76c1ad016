-- ===== src/Core/History.antt =====
-- src/core/color_history.h and color_history.cc: the committed history and its rolling hash.
use Prim.Native.Nat.{bit_xor}
use color.Prelude.{
  ℕ, zero, suc, ◌+◌, ◌*◌, ◌/◌, ◌%◌, ◌^◌, ◌≡◌, refl, Bool, true, false, ◌&&◌, List, [], ◌∷◌, ◌++◌,
  ◌==◌, if◌then◌else◌, u64_mod, add64, length,
}
use color.Text.{Bytes, codes, to_string}
use color.Core.Message.{Seq, Hash}
pub mod Prefix

pub record Event : Type 0 where
  pub is_response : Bool
  pub seq : Seq

bool_eq : Bool → Bool → Bool
bool_eq true b = b
bool_eq false b = if b then false else true

-- `Event::operator==`
unfoldable pub event_eq : Event → Event → Bool
unfolding bool_eq
event_eq e o = bool_eq e.is_response o.is_response && e.seq == o.seq

-- `Event::str`
unfoldable pub event_str : Event → Bytes
event_str e = (if e.is_response then codes "r" else codes "R") ++ to_string e.seq

abbrev fnv_offset_basis : ℕ
fnv_offset_basis = 1469598103934665603

abbrev fnv_prime : ℕ
fnv_prime = 1099511628211

abbrev seed_label : Bytes
seed_label = codes "color/v1"

abbrev separator : ℕ
separator = b':'

fnv_mix : Hash → ℕ → Hash
fnv_mix h b = bit_xor h b * fnv_prime % u64_mod

-- `for (char c : s) fnv_mix(h, c)`
mix_bytes : Hash → Bytes → Hash
unfolding fnv_mix
mix_bytes h [] = h
mix_bytes h (c ∷ s) = mix_bytes (fnv_mix h c) s

-- `for (int i = 0; i < 8; ++i) fnv_mix(h, (prev >> (8 * i)) & 0xff)`, with `rounds` rounds left and
-- `i = 8 - rounds`; `prev` has been shifted by `8 * i`.
mix_word : ℕ → Hash → ℕ → Hash
unfolding fnv_mix
mix_word zero h prev = h
mix_word (suc rounds) h prev = mix_word rounds (fnv_mix h (prev % 256)) (prev / 256)

unfoldable pub hash_seed : Hash
unfolding mix_bytes
hash_seed = mix_bytes fnv_offset_basis seed_label

unfoldable pub hash_step : Hash → Event → Hash
unfolding mix_bytes mix_word event_str
hash_step prev e = mix_bytes (fnv_mix (mix_word 8 prev prev) separator) (event_str e)

pub record History : Type 0 where
  pub events : List Event
  pub cur_hash : Hash
  pub base_count : ℕ

-- `History()`
unfoldable pub empty_history : History
empty_history = record { events = []; cur_hash = hash_seed; base_count = 0 }

-- `History(resumed_hash, base_count)`
unfoldable pub resumed_history : Hash → ℕ → History
resumed_history resumed_hash base_count = record {
  events = [];
  cur_hash = resumed_hash;
  base_count = base_count;
}

-- `History::append`, which returns the hash after the event.
unfoldable pub append : History → Event → History × Hash
append h e =
    let h' : History = record h {
      events = h.events ++ e ∷ [];
      cur_hash = hash_step h.cur_hash e;
    } in
    (h', h'.cur_hash)

-- `for (Seq i : acks) history_.append(Event{true, i})`
unfoldable pub append_responses : History → List Seq → History
unfolding append
append_responses h [] = h
append_responses h (i ∷ acks) =
    append_responses (append h (record { is_response = true; seq = i })).0 acks

unfoldable pub event_count : History → ℕ
event_count h = add64 h.base_count (length h.events)

-- `if (i) s += ' '; s += events_[i].str()` from the second event on.
str_rest : List Event → Bytes → Bytes
str_rest [] s = s
str_rest (e ∷ es) s = str_rest es (s ++ codes " " ++ event_str e)

-- `History::str`
unfoldable pub str : History → Bytes
unfolding str_rest
str h = elim h.events [ [] ↦ [] | e ∷ es ↦ str_rest es (event_str e) ]
