-- ===== src/Base.antt =====
-- The names that the other modules share: the libraries', passed on, and those of the children.
mod Tests
mod Lists
mod Index
mod Memory
mod Keep
mod Strings
pub mod Dict
pub use Tests.*
pub use Lists.*
pub use Index.*
pub use Keep.*
pub use Strings.*
unfoldable pub use Memory.{store, load}
pub use Memory.{
  Bytes, store-nil, store-append, store_lem, store_out, store_rest, drop-store, load_lem, load_zero,
  load_at, store_at,
}
pub use Prim.Native.Nat.{ℕ, zero, suc, ◌+◌, ◌-◌, ◌*◌, ◌/◌, ◌%◌, ◌^◌, ◌≤◌, ◌<◌, min}
pub use mathlib.Core.Path.{◌≡◌, refl, sym, ap, ap₂, subst, ◌∙◌}
pub use mathlib.Core.Logic.{◌≢◌, ◌↔◌, ◌⊎◌, inl, inr}
pub use mathlib.Core.Bool.{Bool, true, false, not, ◌&&◌, ◌||◌}
pub use mathlib.Core.Option.{Option, none, some}
pub use mathlib.Core.List.{List, [], ◌∷◌, ◌++◌, map, append-nil, append_assoc}
pub use native.Mathlib.Omega.{arith}
pub use native.Mathlib.Nat.{
  mod-eq_of_lt, mod-eq-sub-mod, mod-add-mod, add-zero, add_assoc, add_comm,
}
unfoldable pub use native.Mathlib.Decide.{dec_lt, dec_le, ℕ_discrete}
