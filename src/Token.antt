-- ===== src/Token.antt =====
-- token: the tokens of SQL text, their positions, and the tokenizer.
pub mod Kind
pub mod Pos
pub mod Word
pub mod Quoted
pub mod Step
pub mod Lexer
pub mod Stream
pub mod Loops
pub mod Advance
pub mod Progress
pub mod Order
pub mod Verbatim
pub mod Lossless
pub mod Reprint
pub mod RoundTrip
pub mod Printable
