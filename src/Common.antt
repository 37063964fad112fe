-- ===== src/Common.antt =====
-- The names that the other modules share: library names passed on, and the shared helpers on
-- tests, equality, arrays, sets and string-keyed objects.
mod Tests
mod Equality
mod Arrays
mod Sets
mod Objects
mod Throwing
mod Int
mod Text
pub use Tests.*
pub use Equality.*
pub use Arrays.*
unfoldable pub use Sets.*
unfoldable pub use Objects.*
pub use Throwing.*
unfoldable pub use Int.*
unfoldable pub use Text.*
pub use Prim.Native.Nat.{ℕ, zero, suc, ◌+◌, ◌-◌, ◌*◌, ◌/◌, ◌%◌, ◌^◌, ◌≤◌, ◌<◌, min, max}
pub use Prim.Native.String.{String}
pub use mathlib.Core.Path.{◌≡◌, refl, sym, ap, ap₂, subst, fun_ext, ◌∙◌}
pub use mathlib.Core.Logic.{◌≢◌, ◌↔◌, ◌⊎◌, inl, inr}
pub use mathlib.Core.Bool.{Bool, true, false, not, ◌&&◌, ◌||◌}
pub use mathlib.Core.Option.{Option, none, some}
pub use mathlib.Core.List.{List, [], ◌∷◌, ◌++◌, map, append-nil, append_assoc, map-append}
pub use mathlib.Core.List.{Perm}
pub use native.Mathlib.Omega.{arith}
