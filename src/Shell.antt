-- ===== src/Shell.antt =====
-- apps/shell/src: the interactive shell. `Lexer` and `Grammar` are the two halves of parser.rs.
pub mod Syntax
pub mod Lexer
pub mod Grammar
pub mod Editor
