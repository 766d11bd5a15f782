-- ===== src/Matching.antt =====
-- Lists of values and how a cell is looked up in one: services/analyzer/app/features/lists/matching.py.
mod Defs
pub mod Members
pub mod Keys
unfoldable pub use Defs.{
  strip_zeros, is_true_word, is_false_word, same_flag, same_key, as_number, as_bool, is_bool_word,
  decimal_key, list_key, tokens, members_from_items, is_member,
}
pub use Defs.{ℤ, Cell, DecimalTuple, Python, Key, plus, has}
