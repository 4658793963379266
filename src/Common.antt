-- ===== src/Common.antt =====
-- The names that the other modules share: the libraries', passed on, and those of the children.
mod Tests
mod Lists
mod Io
mod Maps
pub mod Bytes
pub mod Text
pub use Tests.*
pub use Lists.*
pub use Io.*
unfoldable pub use Maps.{lookup, erase, put}
pub use Maps.{
  Distinct, length-erase, lookup-erase_ne, lookup-cons_self, lookup-cons_ne, lookup-erase_self,
  Distinct-erase,
}
pub use Maps.{lookup-put_self, Distinct-put, lookup-put_ne, update, update_self, update_ne}
pub use Prim.Native.Nat.{ℕ, zero, suc, ◌+◌, ◌-◌, ◌*◌, ◌/◌, ◌%◌, ◌^◌, ◌≤◌, ◌<◌, min, max}
pub use Prim.Native.Nat.{bit_and, bit_or, bit_xor}
pub use mathlib.Core.Path.{◌≡◌, refl, sym, ap, ◌∙◌, subst}
pub use mathlib.Core.Logic.{◌≢◌, ◌↔◌, ◌⊎◌, inl, inr}
pub use mathlib.Core.Bool.{Bool, true, false, not, ◌&&◌, ◌||◌}
pub use mathlib.Core.Option.{Option, none, some}
pub use mathlib.Core.List.{List, [], ◌∷◌, ◌++◌, map, append-nil, append_assoc}
pub use native.Mathlib.Omega.{arith}
