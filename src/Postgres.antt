-- ===== src/Postgres.antt =====
-- src/anchor/store/postgres.py with the tables of schema/001_init.sql. Each SQL statement is a
-- function on the tables; `now` is the server's clock. A statement or transaction that raises
-- leaves the tables as they were. Nothing here depends on the order of rows in a table but the
-- choice among rows that an ORDER BY leaves tied.
pub mod Tables
pub mod Events
pub mod Runs
pub mod Queue
pub mod Effects
pub mod Setup
pub mod History
