-- ===== src/Prelude.antt =====
-- The names that every other module shares: the libraries', passed on, and those of three children
-- (Boolean tests, lists over the native numbers, 64-bit words). Ints is taken by name.
mod Tests
mod Lists
mod Words
pub mod Ints
pub use Tests.*
pub use Lists.*
pub use Words.{u64_mod, add64-eq, inc64-eq}
unfoldable pub use Words.{add64, inc64}
pub use Prim.Native.Nat.{ℕ, zero, suc, ◌+◌, ◌-◌, ◌*◌, ◌/◌, ◌%◌, ◌^◌, ◌≤◌, ◌<◌}
pub use mathlib.Core.Path.{◌≡◌, refl, sym, ap, subst, ◌∙◌}
pub use mathlib.Core.Logic.{◌≢◌, ◌↔◌, ◌⊎◌, inl, inr}
pub use mathlib.Core.Bool.{Bool, true, false, not, ◌&&◌, ◌||◌}
pub use mathlib.Core.Option.{Option, none, some}
pub use mathlib.Core.List.{List, [], ◌∷◌, ◌++◌, map, append-nil, append_assoc}
pub use native.Mathlib.Omega.{arith}
