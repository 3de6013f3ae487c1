-- ===== src/Base.antt =====
-- The names that the other modules share: those of the libraries, passed on, and those of the children: tests and
-- decisions, lists and options, results with errors, sets and texts.
mod Tests
mod Lists
mod Members
mod Results
mod Sets
mod Texts
unfoldable pub use Tests.{same_text}
unfoldable pub use Lists.{utf16_length}
unfoldable pub use Texts.{concat, join_with_space, decimal_digits}
pub use Texts.{decimal, truncate_utf8, or_text, has_bytes}
pub use Tests.*
pub use Lists.*
pub use Members.*
pub use Results.*
pub use Sets.*
pub use Prim.Native.Nat.{ℕ, zero, suc, ◌+◌, ◌-◌, ◌*◌, ◌/◌, ◌%◌, ◌≤◌, ◌<◌, min, max}
pub use Prim.Native.Char.{code}
pub use Prim.Native.String.{String}
pub use mathlib.Core.Path.{◌≡◌, refl, sym, ap, subst, ◌∙◌}
pub use mathlib.Core.Logic.{◌≢◌, ◌↔◌, ◌⊎◌, inl, inr}
unfoldable pub use mathlib.Core.Bool.{xor}
pub use mathlib.Core.Bool.{Bool, true, false, not, ◌&&◌, ◌||◌, false≢true}
pub use mathlib.Core.Option.{Option, none, some}
pub use mathlib.Core.List.{List, [], ◌∷◌, ◌++◌, map, append-nil, append_assoc}
pub use native.Mathlib.Omega.{arith}
pub use text.Mathlib.Text.{starts_with}
