-- ===== src/Base.antt =====
-- What every other module shares: library names passed on, Boolean tests, equality by instances,
-- lists, results of calls that may throw, integers, and JavaScript's `Map`.
mod Tests
mod Equality
mod Lists
pub mod Members
pub mod Result
pub mod Int
pub mod Text
pub mod Search
pub mod Dict
pub use Tests.*
pub use Equality.*
pub use Lists.*
pub use Prim.Native.Nat.{ℕ, zero, suc, ◌+◌, ◌-◌, ◌*◌, ◌/◌, ◌%◌, ◌^◌, ◌≤◌, ◌<◌}
pub use mathlib.Core.Path.{◌≡◌, refl, sym, ap, subst, ◌∙◌}
pub use mathlib.Core.Logic.{◌≢◌, ◌↔◌, ◌⊎◌, inl, inr}
pub use mathlib.Core.Bool.{Bool, true, false, not, ◌&&◌, ◌||◌}
pub use mathlib.Core.Option.{Option, none, some}
pub use mathlib.Core.List.{List, [], ◌∷◌, ◌++◌, map}
pub use native.Mathlib.Omega.{arith}
