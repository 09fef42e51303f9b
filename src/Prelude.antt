-- ===== src/Prelude.antt =====
-- The names that the other modules share: the libraries', passed on, and those of the children.
mod Tests
mod Lists
mod Table
mod Results
mod Clock
mod Text
mod Int
mod Order
mod Counts
mod Paging
pub use Tests.*
pub use Lists.*
pub use Results.*
pub use Clock.*
unfoldable pub use Text.{strip, prefix, concat, is_empty, text_length, drop_text, starts_with}
pub use Text.{strip_idem, join, concat-empty, concat_assoc}
pub use Int.*
pub use Table.*
pub use Counts.*
pub use Order.{
  take, head, greatest, order_by-append, length-order_by, keep-append, length-take, values,
  values-append,
}
unfoldable pub use Order.{order_by, place}
pub use Paging.{
  last, reversed, reversed-append, Ordered, Apart, sort_by-Ordered, keep-after, take-parts,
  append-nil, append_assoc, All-keep,
}
unfoldable pub use Paging.{sort_by, place_by}
pub use Prim.Native.Nat.{ℕ, zero, suc, ◌+◌, ◌-◌, ◌*◌, ◌/◌, ◌%◌, ◌≤◌, ◌<◌, min, max}
pub use Prim.Native.String.{String}
pub use mathlib.Core.Path.{◌≡◌, refl, sym, ap, ◌∙◌, subst, fun_ext}
pub use mathlib.Core.Logic.{◌≢◌, ◌↔◌, ◌⊎◌, inl, inr}
pub use mathlib.Core.Bool.{Bool, true, false, not, ◌&&◌, ◌||◌}
pub use mathlib.Core.Option.{Option, none, some}
pub use mathlib.Core.List.{List, [], ◌∷◌, ◌++◌, map}
pub use native.Mathlib.Omega.{arith}
pub use text.Mathlib.Text.{◌==◌}
pub use text.Mathlib.TextEquality.{eq_iff}
pub use text.Mathlib.TextPositions.{eq_refl}
