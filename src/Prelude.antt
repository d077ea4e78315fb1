-- ===== src/Prelude.antt =====
-- The names that every other module shares: the libraries', passed on, and those of the children.
-- Go's `string` is the native `String`, whose `len` counts bytes as Go's does.
mod Tests
mod Lists
pub mod Chunks
mod Text
mod Maps
pub mod Int
pub mod Float
pub mod Decimals
pub mod Numerals
pub use Tests.*
pub use Lists.*
unfoldable pub use Text.*
pub use Maps.*
pub use Prim.Native.Nat.{ℕ, zero, suc, ◌+◌, ◌-◌, ◌*◌, ◌/◌, ◌%◌, ◌^◌, ◌≤◌, ◌<◌, min}
pub use Prim.Native.String.{String, len}
pub use mathlib.Core.Path.{◌≡◌, refl, sym, ap, ◌∙◌}
pub use mathlib.Core.Logic.{◌≢◌, ◌↔◌, ◌⊎◌, inl, inr}
pub use mathlib.Core.Bool.{Bool, true, false, not, ◌&&◌, ◌||◌}
pub use mathlib.Core.Option.{Option, none, some}
pub use mathlib.Core.List.{List, [], ◌∷◌, ◌++◌, map}
pub use Prim.Native.String.{◌++◌ as str_append}
pub use native.Mathlib.Omega.{arith}
