-- ===== src/Db.antt =====
-- src/db: the tokens of the migrations, and the schema model rebuilt from them.
mod Tests
pub mod Tokenizer
pub mod Statements
pub mod Model
pub mod Cursor
pub mod Elements
pub mod Tables
pub mod Constraints
pub mod Alter
pub mod AlterTable
pub mod Indexes
pub mod Policies
pub mod Functions
pub mod Routines
pub mod Grants
pub mod Parser
pub mod Loops
