-- ===== src/Prelude.antt =====
-- What the other modules share: names of the libraries passed on, tests on numbers, lists that are
-- measured and indexed by native numbers, signed integers, and the rule sets for the tactics.
mod Tests
mod Lists
mod Counts
mod Text
mod Predicates
pub mod Int
pub use Tests.*
pub use Lists.*
pub use Text.{same_text, same_text_eq, same_text_self}
pub use Counts.{count, contains, count-append, count-erase}
unfoldable pub use Counts.{erase}
pub use Predicates.*
pub use Prim.Native.Nat.{ℕ, zero, suc, ◌+◌, ◌-◌, ◌*◌, ◌/◌, ◌%◌, ◌^◌, ◌≤◌, ◌<◌, min, max}
pub use mathlib.Core.Path.{◌≡◌, refl, sym, ap, subst, ◌∙◌}
pub use mathlib.Core.Logic.{◌≢◌, ◌↔◌, ◌⊎◌, inl, inr}
pub use mathlib.Core.Bool.{Bool, true, false, ◌&&◌, ◌||◌, not}
pub use mathlib.Core.Option.{Option, none, some}
pub use mathlib.Core.List.{List, [], ◌∷◌, ◌++◌, map, append-nil, append_assoc}
pub use native.Mathlib.Omega.{arith}
