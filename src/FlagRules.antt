-- ===== src/FlagRules.antt =====
-- Which rows of a result a query's rules flag: services/analyzer/app/features/flag_rules/engine.py.
mod Defs
mod Evaluate
pub mod Flagged
pub mod Conditions
pub mod Counts
unfoldable pub use Defs.{evaluate_condition, is_null_cell}
unfoldable pub use Evaluate.{index_by_column, has_conditions, prepare, flag_row, evaluate}
pub use Defs.{FlagOperator, FlagSeverity, ConditionSpec, RuleSpec}
pub use Evaluate.{RowFlag, RuleHit, Warning, FlagOutcome}
