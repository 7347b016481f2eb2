-- ===== src/Db.antt =====
-- The database commands of src/db: the choice of a backend, and the migration between MySQL and
-- PostgreSQL. What a query of the drivers returns is an argument.
pub mod Sql
pub mod Services
pub mod Schema
pub mod Ddl
pub mod Cells
pub mod Transfer
pub mod Migration
mod Tests
