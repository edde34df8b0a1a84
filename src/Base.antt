-- ===== src/Base.antt =====
-- The names that the other modules share: the libraries' names, passed on, Boolean tests, lists over
-- the native numbers, and the association lists that stand for the hash maps of the program.
mod Tests
mod Lists
pub mod Maps
pub mod Texts
pub mod Loops
pub mod Filters
pub use Tests.*
pub use Lists.*
pub use Maps.{Map, IsUnique}
pub use Prim.Native.Nat.{ℕ, zero, suc, ◌+◌, ◌-◌, ◌*◌, ◌/◌, ◌%◌, ◌^◌, ◌≤◌, ◌<◌}
pub use mathlib.Core.Path.{◌≡◌, refl, sym, ap, subst, ◌∙◌}
pub use mathlib.Core.Logic.{◌≢◌, ◌↔◌, ◌⊎◌, inl, inr}
pub use mathlib.Core.Bool.{Bool, true, false, not, ◌&&◌, ◌||◌}
pub use mathlib.Core.Option.{Option, none, some}
pub use mathlib.Core.List.{List, [], ◌∷◌, ◌++◌, map}
pub use native.Mathlib.Omega.{arith}
