-- ===== src/Base.antt =====
-- Names that every module shares: the libraries', passed on, and those of the child modules.
mod Tests
mod Results
pub mod Lists
pub mod Texts
pub mod Maps
pub mod Integers
pub use Tests.*
pub use Results.*
pub use Prim.Native.Nat.{ℕ, zero, suc, ◌+◌, ◌-◌, ◌*◌, ◌/◌, ◌%◌, ◌^◌, ◌≤◌, ◌<◌}
pub use Prim.Native.String.{String}
pub use mathlib.Core.Path.{◌≡◌, refl, sym, ap, ◌∙◌, subst}
pub use mathlib.Core.Logic.{◌≢◌, ◌↔◌, ◌⊎◌, inl, inr}
pub use mathlib.Core.Bool.{Bool, true, false, ◌&&◌, ◌||◌, not}
pub use mathlib.Core.Option.{Option, none, some}
pub use mathlib.Core.List.{List, [], ◌∷◌, ◌++◌, map}
pub use native.Mathlib.Omega.{arith}
unfoldable pub use native.Mathlib.Decide.{ℕ_discrete}
pub use Lists.{
  length, length-append, any, all, filter, filter-keeps, filter-drops, All, All-map, All-append,
  contains-append,
}
unfoldable pub use Lists.{contains}
pub use Texts.{Text, text_eq, is_empty, is_ascii_lowercase, is_ascii_digit}
unfoldable pub use Texts.{text, trim, split, decimal, text_lt, Text-discrete, is_whitespace}
pub use Maps.{BTreeMap, Ord, text_ord, values, keys}
pub use Integers.{ℤ, pos, negsuc}
