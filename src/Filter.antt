-- ===== src/Filter.antt =====
-- ptraf-filter: the filter language.
pub mod Expr
pub mod Interpretor
pub mod Matches
pub mod Examples
pub mod Grammar
pub mod Syntax
