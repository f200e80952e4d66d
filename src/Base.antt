-- ===== src/Base.antt =====
-- The names that every other module shares: the libraries' names passed on, and those of the
-- children (tests on numbers, lists, Go maps as association lists, Go strings as byte lists).
pub mod Tests
pub mod Lists
pub mod Maps
pub mod Text
pub mod Integers
pub mod Decimal
unfoldable pub use Integers.*
unfoldable pub use Decimal.*
unfoldable pub use Maps.*
unfoldable pub use Text.{Str, codes, itoa, str_eq, has_prefix, has_suffix, contains_text}
pub use Text.{str_eq_iff}
pub use Tests.*
pub use Lists.*
pub use Prim.Native.Nat.{ℕ, zero, suc, ◌+◌, ◌-◌, ◌*◌, ◌/◌, ◌%◌, ◌^◌, ◌≤◌, ◌<◌}
pub use Prim.Native.String.{String}
pub use mathlib.Core.Path.{◌≡◌, refl, sym, ap, ◌∙◌, subst}
pub use mathlib.Core.Logic.{◌≢◌, ◌↔◌, ◌⊎◌, inl, inr}
pub use mathlib.Core.Bool.{Bool, true, false, not, ◌&&◌, ◌||◌}
pub use mathlib.Core.Option.{Option, none, some}
pub use mathlib.Core.List.{List, [], ◌∷◌, ◌++◌, map, append-nil, append_assoc}
pub use native.Mathlib.Omega.{arith}
unfoldable pub use native.Mathlib.Decide.{ℕ_discrete}
