-- ===== src/Prelude.antt =====
-- The names that the other modules share: the libraries', passed on, and those of the children.
mod Tests
mod Lists
mod Slots
mod Circular
unfoldable pub use Circular.{contents}
pub use Circular.{contents-set_outside, contents-push, contents-pop, length-contents, IsCircular}
pub use Circular.{push-IsCircular, pop-IsCircular, push-contents, pop-contents}
pub use Tests.*
pub use Lists.{length, get_elem?, get_or, set, take, drop, replicate, length-append, length-set}
pub use Lists.{
  take-all, length-take, length-replicate, length-map, get_elem?-set_self, get_elem?-set_ne,
}
pub use Lists.{
  get_elem?-lt, get_elem?-eq-get_or, get_or-set_self, get_or-set_ne, bytes_eq_iff, get_elem?-set,
  get_elem?-map,
}
unfoldable pub use Lists.{bytes_eq}
pub use Slots.{find_slot-some, find_slot-none, count_if-set, count_if-le-length}
pub use Slots.{count_if-replicate, find_slot-of_room, All}
pub use Slots.{find_slot-set_other, find_slot-set_here, find_slot-set_fresh}
unfoldable pub use Slots.{find_slot, count_if}
pub use Prim.Native.Nat.{ℕ, zero, suc, ◌+◌, ◌-◌, ◌*◌, ◌/◌, ◌%◌, ◌^◌, ◌≤◌, ◌<◌, min}
pub use mathlib.Core.Path.{◌≡◌, refl, sym, ap, ap₂, subst, ◌∙◌}
pub use mathlib.Core.Logic.{◌≢◌, ◌↔◌, ◌⊎◌, inl, inr}
pub use mathlib.Core.Bool.{Bool, true, false, ◌&&◌, ◌||◌, not}
pub use mathlib.Core.Option.{Option, none, some}
pub use mathlib.Core.List.{List, [], ◌∷◌, ◌++◌, map}
pub use native.Mathlib.Omega.{arith}
