-- ===== src/Prelude.antt =====
-- The names that all modules share: the libraries' names passed on, Boolean tests on the native
-- numbers, options and lists, and the result type of code that can throw.
mod Tests
mod Lists
mod Keys
mod Slices
mod Filtering
mod Sorting
mod Outcome
mod Strings
mod Split
pub use Tests.*
unfoldable pub use Lists.*
pub use Keys.*
unfoldable pub use Slices.*
pub use Filtering.*
unfoldable pub use Sorting.*
pub use Outcome.*
unfoldable pub use Strings.*
unfoldable pub use Split.*
pub use Prim.Native.Nat.{ℕ, zero, suc, ◌+◌, ◌-◌, ◌*◌, ◌/◌, ◌%◌, ◌^◌, ◌≤◌, ◌<◌, min, max}
pub use Prim.Native.String.{String}
pub use mathlib.Core.Path.{◌≡◌, refl, sym, ap, subst, ◌∙◌}
pub use mathlib.Core.Logic.{◌≢◌, ◌↔◌, ◌⊎◌, inl, inr}
pub use mathlib.Core.Bool.{Bool, true, false, not, ◌&&◌, ◌||◌}
pub use mathlib.Core.Option.{Option, none, some, get_or, some-injective, none-ne-some}
pub use mathlib.Core.List.{List, [], ◌∷◌, ◌++◌, map, Permᴰ}
pub use native.Mathlib.Omega.{arith}
