-- ===== src/Database/Rows.antt =====
-- Lemmas on the rows of the tables of src/db/mod.rs.
mod Keys
mod Statements
pub use Keys.*
pub use Statements.*
