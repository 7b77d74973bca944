-- ===== src/Prelude.antt =====
-- Names and helpers that every module of the development shares: the libraries' names passed on,
-- tests on numbers, lists measured by native numbers, outcomes of fallible code, and byte strings.
mod Tests
mod Lists
mod Outcome
mod Text
pub use Tests.*
pub use Lists.*
pub use Outcome.*
pub use Text.{Bytes, codes, equal_iff}
unfoldable pub use Text.{equal}
pub use Prim.Native.Nat.{ℕ, zero, suc, ◌+◌, ◌-◌, ◌*◌, ◌/◌, ◌%◌, ◌^◌, ◌≤◌, ◌<◌}
pub use Prim.Native.String.{String}
pub use mathlib.Core.Path.{◌≡◌, refl, sym, ap, subst, ◌∙◌}
pub use mathlib.Core.Logic.{◌≢◌, ◌↔◌, ◌⊎◌, inl, inr}
pub use mathlib.Core.Bool.{Bool, true, false, not, ◌&&◌, ◌||◌}
pub use mathlib.Core.Option.{Option, none, some}
pub use mathlib.Core.List.{List, [], ◌∷◌, ◌++◌, map, append-nil, append_assoc}
pub use native.Mathlib.Omega.{arith}
