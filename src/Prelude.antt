-- ===== src/Prelude.antt =====
-- The names that the other modules share: the libraries', passed on, and those of the children.
mod Tests
mod Lists
mod Window
mod Text
mod Maps
pub use Tests.*
pub use Lists.*
pub use Text.*
unfoldable pub use Maps.*
unfoldable pub use Window.*
pub use Prim.Native.Nat.{ℕ, zero, suc, ◌+◌, ◌-◌, ◌*◌, ◌/◌, ◌%◌, ◌^◌, ◌≤◌, ◌<◌, min, max}
pub use mathlib.Core.Path.{◌≡◌, refl, sym, ap, ap₂, ◌∙◌, subst}
pub use mathlib.Core.Logic.{◌≢◌, ◌↔◌, ◌⊎◌, inl, inr}
pub use mathlib.Core.Bool.{Bool, true, false, not, ◌&&◌, ◌||◌}
pub use mathlib.Core.Option.{Option, none, some}
pub use mathlib.Core.List.{List, [], ◌∷◌, ◌++◌, map, foldl, append-nil, append_assoc}
pub use native.Mathlib.Omega.{arith}
pub use native.Mathlib.Nat.{
  add_assoc, le-div_iff_mul-le, div-add-mod', add-mul-mod_self_right, mod-lt, mod-eq_of_lt,
  add-mod_right, mod-mod, mod-add-mod, add-mod-mod, div-add-mod,
}
unfoldable pub use native.Mathlib.Decide.{dec_lt, dec_le, ℕ_discrete}
