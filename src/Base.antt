-- ===== src/Base.antt =====
-- The names that the other modules share: the libraries', passed on, and those of the children.
mod Tests
mod Lists
mod BigEndian
mod Digits
mod Readers
mod Strings
mod Maps
mod Decisions
mod Utf8
pub use Tests.*
pub use Lists.*
unfoldable pub use BigEndian.{put_be, get_be, read_full}
pub use BigEndian.{
  Bytes, be, of_be, length-be, of_be-be, take-append, take_of_length, drop_of_length, length-take,
  length-drop, take-drop, read_full-append, length-read_full,
}
unfoldable pub use Digits.{
  digit_value, digit_char, format_int, digits_from, parse_digits, parse_int,
}
unfoldable pub use Utf8.{valid_utf8}
pub use Utf8.{IsUtf8, ascii-IsUtf8}
pub use Digits.{
  format_int-ascii, IsDigitByte, format_int-All, digit_value-digit_char, max_i64,
  parse_int-format_int,
}
unfoldable pub use Readers.{read_to_end}
pub use Readers.{Got, got, eof, failed}
pub use Decisions.*
unfoldable pub use Strings.{text_eq, has_prefix, has_suffix, trim_prefix}
pub use Strings.{
  Text, codes, text_eq_iff, text_eq_refl, text_eq-ne, IsPrefixOf, has_prefix-append, has_prefix_iff,
  IsSuffixOf, has_suffix_iff, trim_prefix-append,
}
unfoldable pub use Maps.{lookup, insert, delete}
pub use Maps.{
  Assoc, lookup-insert, lookup-delete, length-insert, length-delete, has, map_laws, All-insert,
  All-delete, lookup-All,
}
pub use Prim.Native.Nat.{ℕ, zero, suc, ◌+◌, ◌-◌, ◌*◌, ◌/◌, ◌%◌, ◌^◌, ◌≤◌, ◌<◌}
pub use Prim.Native.String.{String}
pub use mathlib.Core.Path.{◌≡◌, refl, sym, ap, ◌∙◌, subst}
pub use mathlib.Core.Logic.{◌≢◌, ◌↔◌, ◌⊎◌, inl, inr}
pub use mathlib.Core.Bool.{Bool, true, false, not, ◌&&◌, ◌||◌}
pub use mathlib.Core.Option.{Option, none, some}
pub use mathlib.Core.List.{List, [], ◌∷◌, ◌++◌, map}
pub use native.Mathlib.Omega.{arith}
