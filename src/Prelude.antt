-- ===== src/Prelude.antt =====
-- Shared names: the libraries', passed on, and the helpers that every component uses.
mod Tests
mod Lists
mod Equality
pub mod Int
pub mod Dict
pub mod Exec
pub mod Text
pub mod Base64
pub use Tests.*
pub use Lists.*
pub use Equality.*
unfoldable pub use Equality.{bytes_eqb}
pub use Prim.Native.Nat.{ℕ, zero, suc, ◌+◌, ◌-◌, ◌*◌, ◌/◌, ◌%◌, ◌^◌, ◌≤◌, ◌<◌}
pub use mathlib.Core.Path.{◌≡◌, refl, sym, ap, ◌∙◌}
pub use mathlib.Core.Logic.{◌≢◌, ◌↔◌, ◌⊎◌, inl, inr}
pub use mathlib.Core.Bool.{Bool, true, false, not, ◌&&◌, ◌||◌}
pub use mathlib.Core.Option.{Option, none, some}
pub use mathlib.Core.List.{List, [], ◌∷◌, ◌++◌, map}
pub use native.Mathlib.Omega.{arith}
