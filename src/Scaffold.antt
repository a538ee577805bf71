-- ===== src/Scaffold.antt =====
-- The command line's generators: what a table of a database becomes, and how the files are written.
pub mod Columns
pub mod Files
pub mod Schema
mod Tests
