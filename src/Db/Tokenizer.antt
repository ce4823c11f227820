-- ===== src/Db/Tokenizer.antt =====
-- src/db/tokenizer.ts: the tokens of a SQL text and its statements.
pub mod Scan
pub mod Token
pub mod Shapes
pub mod Pieces
pub mod Comments
pub mod Sound
