-- ===== src/Prelude.antt =====
-- The names that the other modules share: the libraries', passed on, and those of the children.
mod Tests
mod Lists
mod Errors
mod Sets
mod Maps
mod Collecting
mod Distinct
pub use Tests.*
pub use Lists.*
pub use Errors.*
pub use Sets.*
pub use Maps.*
pub use Collecting.*
pub use Distinct.*
unfoldable pub use Lists.{filter, take}
unfoldable pub use Errors.{collect}
unfoldable pub use Sets.{list_beq, list_eq, contains, insert, insert_all, remove_item}
unfoldable pub use Maps.{get, put, delete, retain, contains_key}
pub use Prim.Native.Nat.{ℕ, zero, suc, ◌+◌, ◌-◌, ◌*◌, ◌/◌, ◌%◌, ◌^◌, ◌≤◌, ◌<◌, min, max}
pub use mathlib.Core.Path.{◌≡◌, refl, sym, ap, ap₂, subst, ◌∙◌, ◌≡⟨◌⟩◌, ◌∎}
pub use mathlib.Core.Logic.{◌≢◌, ◌↔◌, ◌⊎◌, inl, inr}
pub use mathlib.Core.Bool.{Bool, true, false, false≢true, not, ◌&&◌, ◌||◌}
pub use mathlib.Core.Option.{Option, none, some}
pub use mathlib.Core.List.{List, [], ◌∷◌, ◌++◌, map, reverse, Mem}
pub use native.Mathlib.Omega.{arith}
unfoldable pub use native.Mathlib.Decide.{dec_lt}
