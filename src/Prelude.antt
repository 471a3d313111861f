-- ===== src/Prelude.antt =====
-- The names that the other modules share: the libraries', passed on, and those of two children.
mod Tests
mod Lists
mod Bits
mod Assoc
mod Members
pub mod Int
unfoldable pub use Tests.{every_below}
pub use Tests.*
pub use Bits.{
  bit, bit-lt-two, bit-bit_or, bit-bit_and, bit-shl, bit-shl_low, bit-mod, bit-pow_self, bit-pow_ne,
  bit_and-pow, bit_and-le,
}
unfoldable pub use Assoc.{find, put, delete}
pub use Assoc.{find-put, find-delete, Apart, put-Apart}
pub use Lists.*
pub use Members.*
pub use Prim.Native.Nat.{
  ℕ, zero, suc, ◌+◌, ◌-◌, ◌*◌, ◌/◌, ◌%◌, ◌^◌, ◌≤◌, ◌<◌, min, max, bit_and, bit_or, bit_xor,
}
pub use mathlib.Core.Path.{◌≡◌, refl, sym, subst, ap, ◌∙◌}
pub use mathlib.Core.Logic.{◌≢◌, ◌↔◌, ◌⊎◌, inl, inr}
pub use mathlib.Core.Bool.{Bool, true, false, ◌&&◌, ◌||◌}
pub use mathlib.Core.Option.{Option, none, some}
pub use mathlib.Core.List.{List, [], ◌∷◌, ◌++◌, map}
pub use native.Mathlib.Omega.{arith}
unfoldable pub use native.Mathlib.Decide.{dec_lt, ℕ_discrete}
