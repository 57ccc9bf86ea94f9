-- ===== src/Strings.antt =====
-- Go's package `strings`, as far as the program calls it, over texts that are lists of code points.
mod Base
pub mod Affix
pub mod Trim
pub mod Search
pub mod Split
pub mod CaseFolding
pub mod Fold
pub mod Digits
mod Tests
pub use Base.{
  Text, codes, newline, slash, is_empty, text_eq→eq, text_eq_refl, eq→text_eq, text_eq_iff, Lacks,
}
unfoldable pub use Base.{text_eq}
