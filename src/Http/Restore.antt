-- ===== src/Http/Restore.antt =====
-- color_interceptor.cc: the checkpoint file, and the process that starts from it.
use color.Prelude.{ℕ, ◌≡◌, refl, Bool, true, false, some, [], ◌∷◌}
use color.Text.{Bytes}
use color.Core.Checkpoint.{Checkpoint}
use color.Core.Server.{App}
use color.Core.Server.Resume.{resumed_server, checkpoint}
use color.Wire.Serialize.{checkpoint_json}
use color.Wire.CheckpointTrip.{FitsCheckpoint, from_json_checkpoint-checkpoint_json}
use color.Http.Interceptor.{
  Interceptor, load_checkpoint, new_interceptor, write_checkpoint, is_empty,
}

load_checkpoint-checkpoint_json :
    (path : Bytes) (cp : Checkpoint)
    → is_empty path ≡ false
    → FitsCheckpoint cp
    → load_checkpoint path (some (checkpoint_json cp)) ≡ some cp
unfolding is_empty load_checkpoint
load_checkpoint-checkpoint_json [] cp e fits = absurd (cc)
load_checkpoint-checkpoint_json (c ∷ path) cp e fits =
    rw (from_json_checkpoint-checkpoint_json cp fits) refl

-- With a path, and a core whose checkpoint consists of 64-bit words and strings of bytes, the file
-- that a process writes makes a process started with the same path one that is restored: its core is
-- the one resumed from the checkpoint of the writer's core.
pub new_interceptor-write_checkpoint :
    {W : Type 0} (t : Interceptor W) (app : App W) (world : W) (set_hash : Bool) (every : ℕ)
    → is_empty t.checkpoint_path ≡ false
    → FitsCheckpoint (checkpoint t.core)
    → let next =
        new_interceptor app world set_hash t.checkpoint_path every (write_checkpoint t).file in
      (next.restored ≡ true)
      × (next.core ≡ resumed_server (checkpoint t.core) app world false set_hash)
unfolding new_interceptor write_checkpoint
new_interceptor-write_checkpoint t app world set_hash every path fits =
    rw
      (
        load_checkpoint-checkpoint_json t.checkpoint_path (checkpoint t.core) path fits,
        new_interceptor,
      )
      (refl, refl)
