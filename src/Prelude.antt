-- ===== src/Prelude.antt =====
-- The names that every module shares: the libraries' names passed on, and the Boolean tests,
-- list functions, bit laws and casts over the native numbers of its children.
mod Tests
mod Lists
mod Bits
mod Rows
mod Found
mod Signed
pub mod Text
pub mod Bytes
pub mod Lossy
pub use Tests.*
unfoldable pub use Lists.*
pub use Bits.*
pub use Signed.*
pub use Rows.*
unfoldable pub use Found.*
pub use Prim.Native.Nat.{ℕ, zero, suc, ◌+◌, ◌-◌, ◌*◌, ◌/◌, ◌%◌, ◌^◌, ◌≤◌, ◌<◌, bit_and, bit_or}
pub use Prim.Native.String.{String}
pub use mathlib.Core.Path.{◌≡◌, refl, sym, ap, subst, ◌∙◌}
pub use mathlib.Core.Logic.{◌≢◌, ◌↔◌, ◌⊎◌, inl, inr}
pub use mathlib.Core.Bool.{Bool, true, false, not, ◌&&◌, ◌||◌}
pub use mathlib.Core.Option.{Option, none, some}
pub use mathlib.Core.List.{List, [], ◌∷◌, ◌++◌, map}
pub use native.Mathlib.Omega.{arith}
pub use text.Mathlib.TextEquality.{eq_iff}
