-- ===== src/Tests/Formats.antt =====
-- A checkpoint and a replay with awkward payloads, written and read back.
use color.Prelude.{Bool, ◌≡◌, refl, true, false, [], ◌∷◌, some, arith}
use color.Text.{Bytes, codes}
use color.Core.Checkpoint.{Checkpoint, Replay}
use color.Wire.Serialize.{checkpoint_json, replay_json}
use color.Wire.Parse.{from_json_checkpoint, from_json_replay}
use color.Wire.CheckpointTrip.{FitsCheckpoint, from_json_checkpoint-checkpoint_json}
use color.Wire.Total.{from_json-returns}
use color.Wire.ReplayTrip.{FitsReplay, from_json_replay-replay_json}

-- A quote, a backslash, a newline, a control character and a byte above ASCII.
abbrev awkward : Bytes
awkward = b'"' ∷ b'\\' ∷ 0x0a ∷ 0x01 ∷ 0xff ∷ []

abbrev saved : Checkpoint
saved = record {
  committed_upto = 7;
  event_count = 14;
  history_hash = 18446744073709551615;
  buffer =
      record { seq = 6; payload = awkward; hash = 5 }
      ∷ record { seq = 7; payload = codes "{}"; hash = 0 }
      ∷ [];
}

saved-FitsCheckpoint : FitsCheckpoint saved
saved-FitsCheckpoint = record {
  committed_upto = omega arith;
  event_count = omega arith;
  history_hash = omega arith;
  buffer = (
    record { seq = omega arith; payload = ground arith; hash = omega arith },
    (record { seq = omega arith; payload = ground arith; hash = omega arith }, tt),
  );
}

from_json_checkpoint-checkpoint_json_example :
    from_json_checkpoint (checkpoint_json saved) ≡ some (true, saved)
from_json_checkpoint-checkpoint_json_example =
    from_json_checkpoint-checkpoint_json saved saved-FitsCheckpoint

abbrev replayed : Replay
replayed = record {
  from = 3;
  events =
      record { is_response = true; seq = 2; payload = awkward; hash = 18446744073709551615 }
      ∷ record { is_response = false; seq = 3; payload = []; hash = 0 }
      ∷ [];
}

replayed-FitsReplay : FitsReplay replayed
replayed-FitsReplay = record {
  from = omega arith;
  events = (
    record {
      seq = omega arith;
      payload = ground arith;
      hash = omega arith;
      bare = λ e. absurd (cc);
    },
    (record { seq = omega arith; payload = tt; hash = omega arith; bare = λ e. (refl, refl) }, tt),
  );
}

from_json_replay-replay_json_example :
    from_json_replay (replay_json replayed) ≡ some (true, replayed)
from_json_replay-replay_json_example = from_json_replay-replay_json replayed replayed-FitsReplay

-- Something that no writer prints.
from_json-returns_example :
    ((r : Bool × Checkpoint) × (from_json_checkpoint (codes "{\"buffer\":[[") ≡ some r))
    × ((r : Bool × Replay) × (from_json_replay (codes "{\"buffer\":[[") ≡ some r))
from_json-returns_example = from_json-returns (codes "{\"buffer\":[[")
