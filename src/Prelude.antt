-- ===== src/Prelude.antt =====
-- The names that the other modules share: the libraries', passed on, and those of the children.
-- No code of the repository is modelled here but the notions of the Go language that it uses.
mod Tests
mod Lists
mod Int
mod Strings
mod Results
mod Decimal
pub mod Tables
pub mod Trimming
pub use Tests.*
pub use Lists.*
pub use Int.*
pub use Strings.*
pub use Results.*
pub use Decimal.*
pub use Tables.*
unfoldable pub use Decimal.{value_from, parse_digits, parse_int, digits, decimal, two_digits}
unfoldable pub use Int.{◌+ℤ◌, ◌-ℤ◌, wrap64}
unfoldable pub use Strings.{text_eq}
unfoldable pub use Tables.{find_first, select, update_where, any_row, insert_ordered, order_by}
pub use Prim.Native.Nat.{ℕ, zero, suc, ◌+◌, ◌-◌, ◌*◌, ◌/◌, ◌%◌, ◌^◌, ◌≤◌, ◌<◌}
pub use mathlib.Core.Path.{◌≡◌, refl, sym, ap, subst, ◌∙◌}
pub use mathlib.Core.Logic.{◌≢◌, ◌↔◌, ◌⊎◌, inl, inr}
pub use mathlib.Core.Bool.{Bool, true, false, ◌&&◌, ◌||◌, not, xor}
pub use mathlib.Core.Option.{Option, none, some}
pub use mathlib.Core.List.{List, [], ◌∷◌, ◌++◌, map}
pub use native.Mathlib.Omega.{arith}
