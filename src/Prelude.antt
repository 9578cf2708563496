-- ===== src/Prelude.antt =====
-- The names that every module shares: the libraries' ones passed on, and those of the children.
-- They model what the Python code uses of its language: comparisons, `if`, membership in a set,
-- tables of rows with `UPDATE ... WHERE`, and exceptions as values.
mod Tests
mod Lists
mod Outcome
mod Table
mod Names
mod Sort
pub use Tests.*
pub use Lists.*
unfoldable pub use Outcome.*
pub use Table.*
unfoldable pub use Sort.*
unfoldable pub use Names.{find_name}
pub use Names.{name-find_name}
pub use Prim.Native.Nat.{ℕ, zero, suc, ◌+◌, ◌-◌, ◌*◌, ◌/◌, ◌%◌, ◌≤◌, ◌<◌}
pub use Prim.Native.String.{String}
pub use mathlib.Core.Path.{◌≡◌, refl, sym, subst, ap, ◌∙◌}
pub use mathlib.Core.Logic.{◌≢◌, ◌↔◌, ◌⊎◌, inl, inr}
pub use mathlib.Core.Bool.{Bool, true, false, not, ◌&&◌, ◌||◌}
pub use mathlib.Core.Option.{Option, none, some, some-injective}
pub use mathlib.Core.List.{List, [], ◌∷◌, ◌++◌, map, Memᴰ}
pub use native.Mathlib.Omega.{arith}
pub use text.Mathlib.TextEquality.{eq_iff}
unfoldable pub use native.Mathlib.Decide.{ℕ_discrete}
