-- ===== src/Base.antt =====
-- The names that the other modules share: the libraries' names passed on, Boolean tests and
-- lists over the native numbers (`Tests`, `Lists`), Go strings as byte lists (`Text`), Go maps
-- (`Maps`), results with errors and panics (`Result`), and `sort.Slice` (`Sort`).
mod Tests
mod Lists
mod Outcome
pub mod Text
pub mod Action
pub mod Maps
pub mod Sort
pub use Tests.*
pub use Lists.*
unfoldable pub use Outcome.*
pub use Prim.Native.Nat.{ℕ, zero, suc, ◌+◌, ◌-◌, ◌*◌, ◌/◌, ◌%◌, ◌≤◌, ◌<◌}
pub use mathlib.Core.Path.{◌≡◌, refl, sym, ap, ◌∙◌, subst}
pub use mathlib.Core.Logic.{◌≢◌, ◌↔◌, ◌⊎◌, inl, inr, ⊎_elim}
pub use mathlib.Core.Bool.{Bool, true, false, not, ◌&&◌, ◌||◌}
pub use mathlib.Core.Option.{Option, none, some}
pub use mathlib.Core.List.{List, [], ◌∷◌, ◌++◌, map}
pub use native.Mathlib.Omega.{arith}
