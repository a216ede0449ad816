-- ===== src/Postgres/Query.antt =====
-- query.go: how QueryEvents turns a filter into a statement of SQL with parameters.
pub mod Text
pub mod Marks
pub mod Placeholders
pub mod Bounds
pub mod Conditions
pub mod Saved
