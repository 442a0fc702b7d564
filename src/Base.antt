-- ===== src/Base.antt =====
-- The names that every other module shares: the libraries', passed on, and those of the children.
mod Tests
mod Lists
mod Int
mod Dict
mod Ranking
mod Sort
mod Strict
mod Totals
unfoldable pub use Tests.{List-discrete}
pub use Tests.*
pub use Lists.*
unfoldable pub use Lists.{contains}
pub use Int.*
unfoldable pub use Dict.{lookup, insert, delete, map_values}
unfoldable pub use Int.{◌-ℤ◌, ◌+ℤ◌, ℤ-discrete}
pub use Dict.*
pub use Ranking.*
pub use Sort.*
pub use Strict.*
pub use Totals.*
unfoldable pub use Sort.{sort, sort_insert}
pub use Prim.Native.Nat.{ℕ, zero, suc, ◌+◌, ◌-◌, ◌*◌, ◌/◌, ◌%◌, ◌^◌, ◌≤◌, ◌<◌, min}
pub use Prim.Native.String.{String}
pub use mathlib.Core.Path.{◌≡◌, refl, sym, ap, subst, ◌∙◌}
pub use mathlib.Core.Logic.{◌≢◌, ◌↔◌, ◌⊎◌, inl, inr}
pub use mathlib.Core.Bool.{Bool, true, false, not, ◌&&◌, ◌||◌}
pub use mathlib.Core.Option.{Option, none, some}
pub use mathlib.Core.List.{List, [], ◌∷◌, ◌++◌, map}
pub use native.Mathlib.Omega.{arith}
pub use native.Mathlib.Nat.{mod-lt}
unfoldable pub use native.Mathlib.Decide.{ℕ_discrete, dec_lt}
