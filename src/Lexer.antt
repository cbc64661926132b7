-- ===== src/Lexer.antt =====
-- Lexer.h, Lexer.cpp, lex_utils.cpp, lex_operator.cpp, lex_scanner.cpp: the lexer.
pub mod Token
pub mod Cursor
pub mod Scanner
pub mod Operator
pub mod Next
pub mod Keeps
pub mod Progress
pub mod Place
pub mod Words
pub mod Strings
pub mod Symbols
