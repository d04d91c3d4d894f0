-- ===== src/Base.antt =====
-- The names that the other modules share: the libraries', passed on, and those of the children.
mod Tests
mod Lists
mod Words
mod Arrays
pub mod Counts
pub mod Run
pub use Tests.*
pub use Lists.{length, length-append, length-set, get_or-set}
unfoldable pub use Lists.{replicate, get_or, set}
pub use Words.*
pub use Arrays.{update, find_from-hit, find_from-le, update_each-below}
unfoldable pub use Arrays.{find_from, update_each}
pub use Prim.Native.Nat.{ℕ, bit_and, zero, suc, ◌+◌, ◌-◌, ◌*◌, ◌/◌, ◌%◌, ◌^◌, ◌≤◌, ◌<◌, min, max}
pub use mathlib.Core.Path.{◌≡◌, refl, sym, ap, ◌∙◌, subst, fun_ext}
pub use mathlib.Core.Logic.{◌≢◌, ◌↔◌, ◌⊎◌, inl, inr}
pub use mathlib.Core.Bool.{Bool, true, false, not, ◌&&◌, ◌||◌}
pub use mathlib.Core.Option.{Option, none, some}
pub use mathlib.Core.List.{List, [], ◌∷◌, ◌++◌}
pub use native.Mathlib.Omega.{arith}
