-- ===== src/Base.antt =====
-- The names that every component shares: the libraries', passed on, and those of the children.
mod Tests
mod Int
mod Maps
mod Lists
mod Outcome
mod Post
mod Runs
mod Invocation
mod Tokens
mod Bank
pub use Tests.*
unfoldable pub use Int.*
pub use Maps.*
pub use Lists.*
unfoldable pub use Outcome.*
pub use Post.*
pub use Runs.*
pub use Invocation.*
pub use Tokens.*
pub use Bank.*
pub use Prim.Native.Nat.{ℕ, zero, suc, ◌+◌, ◌-◌, ◌*◌, ◌/◌, ◌%◌, ◌^◌, ◌≤◌, ◌<◌, min}
pub use mathlib.Core.Path.{◌≡◌, refl, sym, ap, ◌∙◌}
pub use mathlib.Core.Logic.{◌≢◌, ◌↔◌, ◌⊎◌, inl, inr}
pub use mathlib.Core.Bool.{Bool, true, false, not, ◌&&◌, ◌||◌}
pub use mathlib.Core.Option.{Option, none, some}
pub use mathlib.Core.List.{List, [], ◌∷◌, ◌++◌}
pub use native.Mathlib.Omega.{arith}
