-- ===== src/Base.antt =====
-- Names that every part shares: the library's, Boolean tests, optional values, timestamps, and in
-- child modules the dictionaries and lists of the Python code.
mod Tests
pub mod Dict
pub mod Counts
pub mod Rows
pub mod Where
pub mod Grows
pub mod Loops
pub mod Counted
pub use Tests.*
pub use Prim.Native.Nat.{ℕ, zero, suc, ◌+◌, ◌-◌, ◌*◌, ◌≤◌, ◌<◌, min, max}
pub use Prim.Native.String.{String}
pub use mathlib.Core.Path.{◌≡◌, refl, sym, ap, ◌∙◌}
pub use mathlib.Core.Logic.{◌≢◌, ◌↔◌, ◌⊎◌, inl, inr}
pub use mathlib.Core.Bool.{Bool, true, false, ◌&&◌, ◌||◌, not}
pub use mathlib.Core.Option.{Option, none, some}
pub use mathlib.Core.List.{List, [], ◌∷◌, ◌++◌, map}
pub use native.Mathlib.Omega.{arith}
