-- ===== src/Prelude.antt =====
-- The names that the other modules share: the libraries' passed on, C tests on machine numbers,
-- indexed lists, signed integers and kernel result codes, and NUL-terminated strings.
mod Tests
mod Lists
mod Memory
mod Appended
pub mod Int
pub mod CString
pub use Tests.*
pub use Lists.*
pub use Memory.*
pub use Appended.*
pub use Prim.Native.Nat.{ℕ, zero, suc, ◌+◌, ◌-◌, ◌*◌, ◌/◌, ◌%◌, ◌^◌, ◌≤◌, ◌<◌, min}
pub use mathlib.Core.Path.{◌≡◌, refl, sym, ap, ap₂, ◌∙◌}
pub use mathlib.Core.Logic.{◌≢◌, ◌↔◌, ◌⊎◌, inl, inr}
pub use mathlib.Core.Bool.{Bool, true, false, not, ◌&&◌, ◌||◌}
pub use mathlib.Core.Option.{Option, none, some}
pub use mathlib.Core.List.{List, [], ◌∷◌, ◌++◌, map}
pub use native.Mathlib.Omega.{arith}
