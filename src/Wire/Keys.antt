-- ===== src/Wire/Keys.antt =====
-- The keys of both formats as quoted strings, and the characters behind a number.
use color.Prelude.{◌≤◌, ◌≡◌, refl, false, ◌∷◌, ◌++◌, arith, length, length-append}
use color.Text.{Bytes, codes, is_digit}
use color.Wire.Serialize.{quoted, escape, escape_char}
use color.Wire.Parser.{is_number_char}

pub comma_ends : is_number_char b',' ≡ false
unfolding is_number_char is_digit
comma_ends = refl

pub brace_ends : is_number_char b'}' ≡ false
unfolding is_number_char is_digit
brace_ends = refl

pub seq_key : (v : Bytes) → codes "\"seq\":" ++ v ≡ quoted (codes "seq") (b':' ∷ v)
unfolding quoted escape escape_char
seq_key v = refl

pub payload_key : (v : Bytes) → codes "\"payload\":" ++ v ≡ quoted (codes "payload") (b':' ∷ v)
unfolding quoted escape escape_char
payload_key v = refl

pub hash_key : (v : Bytes) → codes "\"hash\":" ++ v ≡ quoted (codes "hash") (b':' ∷ v)
unfolding quoted escape escape_char
hash_key v = refl

pub version_key : (v : Bytes) → codes "\"version\":" ++ v ≡ quoted (codes "version") (b':' ∷ v)
unfolding quoted escape escape_char
version_key v = refl

pub committed_upto_key :
    (v : Bytes) → codes "\"committed_upto\":" ++ v ≡ quoted (codes "committed_upto") (b':' ∷ v)
unfolding quoted escape escape_char
committed_upto_key v = refl

pub event_count_key :
    (v : Bytes) → codes "\"event_count\":" ++ v ≡ quoted (codes "event_count") (b':' ∷ v)
unfolding quoted escape escape_char
event_count_key v = refl

pub history_hash_key :
    (v : Bytes) → codes "\"history_hash\":" ++ v ≡ quoted (codes "history_hash") (b':' ∷ v)
unfolding quoted escape escape_char
history_hash_key v = refl

pub buffer_key : (v : Bytes) → codes "\"buffer\":" ++ v ≡ quoted (codes "buffer") (b':' ∷ v)
unfolding quoted escape escape_char
buffer_key v = refl

pub length-behind : (s rest : Bytes) → length rest ≤ length (s ++ rest)
length-behind s rest = omega (arith, length-append s rest)

pub from_key : (v : Bytes) → codes "\"from\":" ++ v ≡ quoted (codes "from") (b':' ∷ v)
unfolding quoted escape escape_char
from_key v = refl

pub events_key : (v : Bytes) → codes "\"events\":" ++ v ≡ quoted (codes "events") (b':' ∷ v)
unfolding quoted escape escape_char
events_key v = refl

pub t_key : (v : Bytes) → codes "\"t\":" ++ v ≡ quoted (codes "t") (b':' ∷ v)
unfolding quoted escape escape_char
t_key v = refl
