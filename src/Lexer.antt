-- ===== src/Lexer.antt =====
-- lexer/lexer.go: the scanner of Lua sources.
pub mod Chars
pub mod Machine
pub mod Readers
pub mod Scanner
pub mod State
pub mod Spec
pub mod Bounds
pub mod Consume
pub mod Loops
pub mod Scan
pub mod Reads
pub mod Words
pub mod Next
pub mod Valid
pub mod Tokens
pub mod End
pub mod Keywords
pub mod Literals
pub mod Brackets
pub mod Operators
mod Tests
