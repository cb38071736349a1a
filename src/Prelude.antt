-- ===== src/Prelude.antt =====
-- Names, tests, list and text helpers that every component shares.
mod Tests
mod Lists
mod Strings
mod Results
mod Maps
mod Decimal
mod Trim
pub use Tests.*
pub use Lists.*
pub use Strings.*
pub use Results.*
pub use Trim.*
unfoldable pub use Maps.{lookup, insert, put, remove, retain}
unfoldable pub use Decimal.{decimal}
pub use Decimal.{
  parse_unsigned, drop_plus, digits_value, digits_value-decimal, all_digits-decimal,
  not_empty-decimal,
}
pub use Maps.{
  text_lt, lookup-insert, lookup-remove, IsDistinct, lookup-put, lookup-put-same, put-IsDistinct,
  remove-IsDistinct, kept, lookup-retain, retain-IsDistinct,
}
pub use Prim.Native.Nat.{ℕ, zero, suc, ◌+◌, ◌-◌, ◌*◌, ◌/◌, ◌%◌, ◌^◌, ◌≤◌, ◌<◌, min, max}
pub use mathlib.Core.Path.{◌≡◌, refl, sym, ap, ◌∙◌, subst}
pub use mathlib.Core.Logic.{◌≢◌, ◌↔◌, ◌⊎◌, inl, inr}
pub use mathlib.Core.Bool.{Bool, true, false, not, ◌&&◌, ◌||◌}
pub use mathlib.Core.Option.{Option, none, some}
pub use mathlib.Core.List.{List, [], ◌∷◌, ◌++◌, map, append-nil, append_assoc}
pub use native.Mathlib.Omega.{arith}
