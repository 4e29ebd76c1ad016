-- ===== src/Core/Checkpoint.antt =====
-- src/core/color_checkpoint.h: the state that survives a failover, and the client's replay.
use color.Prelude.{ℕ, Bool, List, []}
use color.Text.{Bytes}
use color.Core.Message.{Seq, Hash}

pub record BufferedResponse : Type 0 where
  pub seq : Seq
  pub payload : Bytes
  pub hash : Hash

pub record Checkpoint : Type 0 where
  pub committed_upto : Seq
  pub event_count : ℕ
  pub history_hash : Hash
  pub buffer : List BufferedResponse

abbrev pub default_checkpoint : Checkpoint
default_checkpoint = record { committed_upto = 0; event_count = 0; history_hash = 0; buffer = [] }

pub record ReplayEvent : Type 0 where
  pub is_response : Bool
  pub seq : Seq
  pub payload : Bytes
  pub hash : Hash

pub record Replay : Type 0 where
  pub from : ℕ
  pub events : List ReplayEvent

abbrev pub default_replay : Replay
default_replay = record { from = 0; events = [] }
