-- ===== src/Base.antt =====
-- The names that the components share: the libraries', passed on, and those of the modules below.
-- Text is a list of Unicode scalar values, a file path the list of its components.
mod Tests
mod Classes
mod Lists
mod Texts
mod Maps
mod Pigeonhole
pub mod Calls
unfoldable pub use Tests.*
unfoldable pub use Classes.*
unfoldable pub use Lists.*
unfoldable pub use Texts.*
pub use Pigeonhole.*
unfoldable pub use Maps.*
pub use Prim.Native.Nat.{ℕ, zero, suc, ◌+◌, ◌-◌, ◌*◌, ◌/◌, ◌%◌, ◌^◌, ◌≤◌, ◌<◌}
pub use Prim.Native.String.{String}
pub use mathlib.Core.Path.{◌≡◌, refl, sym, ap, ◌∙◌, fun_ext}
pub use mathlib.Core.Logic.{◌≢◌, ◌↔◌, ◌⊎◌, inl, inr}
pub use mathlib.Core.Bool.{Bool, true, false, not, ◌&&◌, ◌||◌}
pub use mathlib.Core.Option.{Option, none, some}
pub use mathlib.Core.List.{List, [], ◌∷◌, ◌++◌, map, map-append, append_assoc, append-nil}
pub use native.Mathlib.Omega.{arith}
