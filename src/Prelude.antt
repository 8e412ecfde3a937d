-- ===== src/Prelude.antt =====
-- The names that the other modules share: the libraries' names, and those of the children.
mod Tests
mod Lists
mod Results
mod Totality
mod Words
pub use Tests.*
pub use Lists.*
pub use Results.*
pub use Totality.*
unfoldable pub use Words.*
pub use Prim.Native.Nat.{ℕ, zero, suc, ◌+◌, ◌-◌, ◌*◌, ◌/◌, ◌%◌, ◌^◌, ◌≤◌, ◌<◌, max, min}
pub use mathlib.Core.Path.{◌≡◌, refl, sym, ap, ◌∙◌}
pub use mathlib.Core.Logic.{◌≢◌, ◌↔◌, ◌⊎◌, inl, inr}
pub use mathlib.Core.Bool.{Bool, true, false, not, ◌&&◌, ◌||◌}
pub use mathlib.Core.Option.{Option, none, some}
pub use mathlib.Core.List.{List, [], ◌∷◌, ◌++◌, map, reverse, foldl, append_assoc, append-nil}
pub use native.Mathlib.Omega.{arith}
