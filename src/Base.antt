-- ===== src/Base.antt =====
-- The names that the other modules share: numbers, lists, options, texts and tests, with the
-- dictionaries that stand for the Go maps of the program.
mod Tests
mod Lists
mod Texts
pub mod Go
pub mod Int
pub mod Dict
unfoldable pub use Tests.*
pub use Lists.*
unfoldable pub use Texts.{eqb, text_discrete}
pub use Texts.{ne_of_differ}
pub use Prim.Native.Nat.{ℕ, zero, suc, ◌+◌, ◌-◌, ◌*◌, ◌/◌, ◌%◌, ◌^◌, ◌≤◌, ◌<◌, min, max}
pub use Prim.Native.String.{String}
pub use mathlib.Core.Path.{◌≡◌, refl, sym, ap, ap₂, subst, ◌∙◌}
pub use mathlib.Core.Logic.{◌≢◌, ◌↔◌, ◌⊎◌, inl, inr}
pub use mathlib.Core.Bool.{Bool, true, false, not, ◌&&◌, ◌||◌}
pub use mathlib.Core.Option.{Option, none, some}
pub use mathlib.Core.List.{List, [], ◌∷◌, ◌++◌, map}
pub use native.Mathlib.Omega.{arith}
