-- ===== src/Wire/Serialize.antt =====
-- src/wire/failover_json.cc, the writers: `append_escaped` and the two `to_json`.
use color.Prelude.{ℕ, ◌+◌, ◌-◌, ◌/◌, ◌%◌, List, [], ◌∷◌, ◌++◌, ltb, ◌==◌, if◌then◌else◌}
use color.Text.{Bytes, codes, to_string}
use color.Core.Checkpoint.{BufferedResponse, Checkpoint, ReplayEvent, Replay}

-- `hex[d]`
unfoldable pub hex_digit : ℕ → ℕ
hex_digit d = if ltb d 10 then b'0' + d else b'a' + (d - 10)

-- What the switch in `append_escaped` appends for a byte.
unfoldable pub escape_char : ℕ → Bytes
unfolding hex_digit
escape_char c =
    if c == b'"'
    then codes "\\\""
    else if c == b'\\'
    then codes "\\\\"
    else if c == 0x0a
    then codes "\\n"
    else if c == 0x0d
    then codes "\\r"
    else if c == 0x09
    then codes "\\t"
    else if ltb c 0x20
    then codes "\\u00" ++ hex_digit (c / 16 % 16) ∷ hex_digit (c % 16) ∷ []
    else c ∷ []

unfoldable pub escape : Bytes → Bytes
escape [] = []
escape (c ∷ s) = escape_char c ++ escape s

-- `append_escaped(out, s)`, with what is appended behind it.
unfoldable pub quoted : Bytes → Bytes → Bytes
quoted s rest = b'"' ∷ (escape s ++ b'"' ∷ rest)

-- One entry of the buffer, and the loop over it; `rest` is what follows.
unfoldable pub buffered_json : BufferedResponse → Bytes → Bytes
buffered_json b rest =
    codes "{\"seq\":"
    ++ (to_string b.seq
        ++ (codes ",\"payload\":"
            ++ quoted b.payload (codes ",\"hash\":" ++ (to_string b.hash ++ b'}' ∷ rest))))

-- The entries behind the first of a list: `if (i) s += ','`.
unfoldable pub items_tail : {A : Type 0} → (A → Bytes → Bytes) → List A → Bytes → Bytes
items_tail write [] rest = rest
items_tail write (a ∷ items) rest = b',' ∷ write a (items_tail write items rest)

-- The loop over the entries of a list, for the body `write`.
unfoldable pub items_json : {A : Type 0} → (A → Bytes → Bytes) → List A → Bytes → Bytes
items_json write [] rest = rest
items_json write (a ∷ items) rest = write a (items_tail write items rest)

-- `to_json(const Checkpoint&)`
unfoldable pub checkpoint_json : Checkpoint → Bytes
checkpoint_json cp =
    codes "{\"version\":1"
    ++ (codes ",\"committed_upto\":"
        ++ (to_string cp.committed_upto
            ++ (codes ",\"event_count\":"
                ++ (to_string cp.event_count
                    ++ (codes ",\"history_hash\":"
                        ++ (to_string cp.history_hash
                            ++ (codes ",\"buffer\":["
                                ++ items_json buffered_json cp.buffer (codes "]}"))))))))

-- One event of a replay: the payload and the hash only of a response.
unfoldable pub event_json : ReplayEvent → Bytes → Bytes
event_json e rest =
    codes "{\"t\":\""
    ++ ((if e.is_response then codes "r" else codes "R")
        ++ (codes "\""
            ++ (codes ",\"seq\":"
                ++ (to_string e.seq
                    ++ (if e.is_response
                        then codes ",\"payload\":"
                          ++ quoted e.payload
                              (codes ",\"hash\":" ++ (to_string e.hash ++ b'}' ∷ rest))
                        else b'}' ∷ rest)))))

-- `to_json(const Replay&)`
unfoldable pub replay_json : Replay → Bytes
replay_json rp =
    codes "{\"from\":"
    ++ (to_string rp.from
        ++ (codes ",\"events\":[" ++ items_json event_json rp.events (codes "]}")))
