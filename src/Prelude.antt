-- ===== src/Prelude.antt =====
-- Names that every module of the development shares: the libraries' names, the Boolean tests, the
-- list operations over the native numbers, signed integers and C arrays.
mod Tests
mod Lists
mod Laws
pub mod Int
pub mod Memory
pub mod Table
pub mod Splice
pub mod Text
pub mod Dict
pub mod Returns
pub mod Decimal
pub use Tests.*
pub use Lists.*
pub use Laws.*
pub use Prim.Native.Nat.{ℕ, zero, suc, ◌+◌, ◌-◌, ◌*◌, ◌/◌, ◌%◌, ◌^◌, ◌≤◌, ◌<◌}
pub use mathlib.Core.Path.{◌≡◌, refl, sym, ap, subst, ◌∙◌}
pub use mathlib.Core.Logic.{◌≢◌, ◌↔◌, ◌⊎◌, inl, inr}
pub use mathlib.Core.Bool.{Bool, true, false, not, ◌&&◌, ◌||◌}
pub use mathlib.Core.Option.{Option, none, some}
pub use mathlib.Core.List.{List, [], ◌∷◌, ◌++◌, append-nil, append_assoc, map}
pub use native.Mathlib.Omega.{arith}
