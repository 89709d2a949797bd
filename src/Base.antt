-- ===== src/Base.antt =====
-- What the other modules share: the libraries' names, Boolean tests, lists measured by native
-- numbers, and the outcome of Rust code that may panic or block on a mutex.
mod Tests
mod Lists
mod Chunks
mod Outcomes
pub mod HashSet
pub mod HashMap
pub mod Bits
pub use Tests.*
pub use Lists.*
unfoldable pub use Chunks.*
pub use Outcomes.*
pub use Prim.Native.Nat.{ℕ, zero, suc, ◌+◌, ◌-◌, ◌*◌, ◌/◌, ◌%◌, ◌^◌, ◌≤◌, ◌<◌, min, max, bit_and}
pub use mathlib.Core.Path.{◌≡◌, refl, sym, ap, ◌∙◌, subst}
pub use mathlib.Core.Logic.{◌≢◌, ◌↔◌, ◌⊎◌, inl, inr}
pub use mathlib.Core.Bool.{Bool, true, false, true≢false, ◌&&◌, ◌||◌, not}
pub use mathlib.Core.Option.{Option, none, some}
pub use mathlib.Core.List.{List, [], ◌∷◌, ◌++◌, map}
pub use native.Mathlib.Omega.{arith}
