-- ===== src/Prelude.antt =====
-- Names, tests and small types that the other modules share.
mod Tests
mod Lists
pub mod Strings
pub mod Maps
pub mod Members
pub mod Order
pub use Tests.*
pub use Lists.*
pub use Strings.{Text, codes, is_space, text_eq_iff, text_eq_refl}
unfoldable pub use Strings.{
  text_eq, to_lower, cut_prefix, has_suffix, before, split, trim, fields, equal_fold, text_ltb,
}
pub use Prim.Native.Nat.{ℕ, zero, suc, ◌+◌, ◌-◌, ◌*◌, ◌/◌, ◌%◌, ◌^◌, ◌≤◌, ◌<◌, min}
pub use mathlib.Core.Path.{◌≡◌, refl, sym, ap, ◌∙◌}
pub use mathlib.Core.Logic.{◌≢◌, ◌↔◌, ◌⊎◌, inl, inr}
pub use mathlib.Core.Bool.{Bool, true, false, not, ◌&&◌, ◌||◌}
pub use mathlib.Core.Option.{Option, none, some}
pub use mathlib.Core.List.{List, [], ◌∷◌, ◌++◌}
pub use native.Mathlib.Omega.{arith}
