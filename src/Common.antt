-- ===== src/Common.antt =====
-- The names that the other modules share: the libraries', passed on, and those of the children
-- for tests on numbers, lists, signed integers, equality of keys, maps, results and actions.
mod Tests
mod Lists
mod Eq
pub mod Int
pub mod Map
pub mod Results
pub mod Exec
pub mod Ensures
pub mod Bytes
pub use Tests.*
pub use Lists.*
pub use Eq.{HasEq, ◌==◌, list_eq, pair_eq, nat_eq, string_eq, int_eq, same, differ, eq_self}
pub use Prim.Native.Nat.{ℕ, zero, suc, ◌+◌, ◌-◌, ◌*◌, ◌/◌, ◌%◌, ◌^◌, ◌≤◌, ◌<◌}
pub use Prim.Native.String.{String}
pub use mathlib.Core.Path.{◌≡◌, refl, sym, ap, ap₂, ◌∙◌, subst, fun_ext}
pub use mathlib.Core.Logic.{◌≢◌, ◌↔◌, ◌⊎◌, inl, inr}
pub use mathlib.Core.Bool.{Bool, true, false, not, ◌&&◌, ◌||◌}
pub use mathlib.Core.Option.{Option, none, some}
pub use mathlib.Core.List.{List, [], ◌∷◌, ◌++◌, map}
pub use native.Mathlib.Omega.{arith}
