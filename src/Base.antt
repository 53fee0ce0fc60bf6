-- ===== src/Base.antt =====
-- The names that the other modules share: the libraries', passed on, and those of the children.
mod Tests
mod Lists
mod Indexing
mod Bits
mod Fault
mod Members
pub use Tests.*
pub use Lists.*
pub use Indexing.*
unfoldable pub use Bits.{has_bit, with_bit, without_bit}
pub use Bits.{has_bit-with_bit, has_bit-without_bit, with_bit-lt, without_bit-lt}
pub use Fault.*
unfoldable pub use Members.{has}
pub use Members.{has-append, has-append_left, has-append_right, All-has}
pub use Prim.Native.Nat.{
  ℕ, zero, suc, ◌+◌, ◌-◌, ◌*◌, ◌/◌, ◌%◌, ◌^◌, ◌≤◌, ◌<◌, min, max, bit_and, bit_or,
}
pub use mathlib.Core.Path.{◌≡◌, refl, sym, ap, ◌∙◌, subst, fun_ext}
pub use mathlib.Core.Logic.{◌≢◌, ◌↔◌, ◌⊎◌, inl, inr}
pub use mathlib.Core.Bool.{Bool, true, false, ◌&&◌, ◌||◌, not}
pub use mathlib.Core.Option.{Option, none, some}
pub use mathlib.Core.List.{List, [], ◌∷◌, ◌++◌, map, append-nil, append_assoc}
pub use native.Mathlib.Omega.{arith}
