-- ===== src/Base.antt =====
-- Names that all parts share: the libraries' names passed on, byte strings, tables, lists,
-- and the signed integers of the C++ type `int`.
mod Tests
mod Lists
pub mod Strings
pub mod Table
pub mod Endian
pub mod Order
pub use Tests.*
pub use Lists.*
unfoldable pub use Strings.{same}
pub use Strings.{Bytes, codes, same_iff, same_refl}
pub use Prim.Native.Nat.{ℕ, zero, suc, ◌+◌, ◌-◌, ◌*◌, ◌/◌, ◌%◌, ◌^◌, ◌≤◌, ◌<◌, min, max}
pub use mathlib.Core.Path.{◌≡◌, refl, sym, ap, ◌∙◌, subst, ◌≡⟨◌⟩◌, ◌∎}
pub use mathlib.Core.Logic.{◌≢◌, ◌↔◌, ◌⊎◌, inl, inr}
pub use mathlib.Core.Bool.{Bool, true, false, not, ◌&&◌, ◌||◌, false≢true}
pub use mathlib.Core.Option.{Option, none, some}
pub use mathlib.Core.List.{List, [], ◌∷◌, ◌++◌, map, append_assoc, append-nil}
pub use native.Mathlib.Omega.{arith}
