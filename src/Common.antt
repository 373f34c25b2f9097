-- ===== src/Common.antt =====
-- The names that the other modules share: the libraries', passed on, and those of the children.
mod Tests
mod Lists
mod Int
mod Text
pub use Tests.*
unfoldable pub use Lists.{get_or, set, take, drop, replicate}
pub use Lists.{
  length, get_elem?, length-append, length-set, length-take, length-drop, take-drop,
  take-append_self, drop-append_self, take-append_le, drop-append_le, length-replicate,
  get_or-replicate, get_or-append_lt, get_or-append_length, drop-append_length, get_or-take,
  get_or-drop, get_or-beyond,
}
unfoldable pub use Int.{◌+ℤ◌, ◌-ℤ◌, wrap_ll}
pub use Int.{
  ℤ, pos, negsuc, pos_part, neg_part, sub_ℕ, neg_ℕ, ltb_ℤ, leb_ℤ, ◌≤ℤ◌, ll_max, FitsLl,
  wrap_ll-of_fits, wrap_ll-FitsLl,
}
unfoldable pub use Text.{bytes, bytes_eq, c_str, to_lower, str_case_eq}
pub use Text.{
  Bytes, bytes_eq_refl, bytes_eq-false, eq_of_bytes_eq, bytes_eq_iff, NoNul, c_str_lem, c_str-c_str,
}
pub use Prim.Native.Nat.{ℕ, zero, suc, ◌+◌, ◌-◌, ◌*◌, ◌/◌, ◌%◌, ◌^◌, ◌≤◌, ◌<◌, min, max}
pub use mathlib.Core.Bool.{Bool, true, false, not, ◌&&◌, ◌||◌}
pub use mathlib.Core.List.{List, [], ◌∷◌, ◌++◌, append-nil, append_assoc}
pub use mathlib.Core.Logic.{◌≢◌, ◌↔◌, ◌⊎◌, inl, inr}
pub use mathlib.Core.Option.{Option, none, some}
pub use mathlib.Core.Path.{◌≡◌, refl, sym, ap, ap₂, ◌∙◌}
pub use native.Mathlib.Omega.{arith}
