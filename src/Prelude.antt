-- ===== src/Prelude.antt =====
-- The names that the other modules share.
mod Tests
mod Lists
mod Texts
mod Results
pub use Tests.*
pub use Lists.*
pub use Results.*
unfoldable pub use Texts.{same, lookup, insert, remove}
pub use Texts.{Bytes, codes, same_iff, same_refl, lookup-insert, lookup-remove}
pub use Prim.Native.Nat.{ℕ, zero, suc, ◌+◌, ◌-◌, ◌*◌, ◌/◌, ◌%◌, ◌^◌, ◌≤◌, ◌<◌, bit_xor, bit_or, min}
pub use mathlib.Core.Path.{◌≡◌, refl, sym, ap, ◌∙◌, subst}
pub use mathlib.Core.Logic.{◌≢◌, ◌↔◌, ◌⊎◌, inl, inr}
pub use mathlib.Core.Bool.{Bool, true, false, not, ◌&&◌, ◌||◌}
pub use mathlib.Core.Option.{Option, none, some}
pub use mathlib.Core.List.{List, [], ◌∷◌, ◌++◌, map, append-nil, append_assoc}
pub use native.Mathlib.Omega.{arith}
