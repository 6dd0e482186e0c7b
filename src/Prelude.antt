-- ===== src/Prelude.antt =====
-- The names that the other modules share: the libraries', passed on, with Boolean tests on
-- numbers, lists measured by native numbers, and byte strings with their equality.
mod Tests
mod Lists
mod Strings
pub use Tests.*
unfoldable pub use Lists.{take, drop, replicate}
pub use Lists.{
  length, get_elem?, set, get_or, length-append, length-set, get_elem?-set_self, get_elem?-set_ne,
  take-append-drop, length-take, length-drop, length-replicate, length-map, take-append,
  drop-append,
}
unfoldable pub use Strings.{bytes_eq, any, contains}
pub use Strings.{Bytes, codes, All, IsDistinct, bytes_eq_refl, bytes_eq→eq, bytes_eq-false}
pub use Prim.Native.Nat.{ℕ, zero, suc, ◌+◌, ◌-◌, ◌*◌, ◌/◌, ◌%◌, ◌^◌, ◌≤◌, ◌<◌, min, max}
pub use mathlib.Core.Path.{◌≡◌, refl, sym, ap, ◌∙◌}
pub use mathlib.Core.Logic.{◌≢◌, ◌↔◌, ◌⊎◌, inl, inr}
pub use mathlib.Core.Bool.{Bool, true, false, ◌&&◌, ◌||◌, not}
pub use mathlib.Core.Option.{Option, none, some}
pub use mathlib.Core.List.{List, [], ◌∷◌, ◌++◌, map, append-nil, append_assoc}
pub use native.Mathlib.Omega.{arith}
