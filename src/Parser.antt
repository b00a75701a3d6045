-- ===== src/Parser.antt =====
-- src/parser/parser.cpp and include/mattsql/parser. The cursor `current_` is given by the tokens from
-- there on, the last of which is the end of the file; a parse function takes them and gives those
-- behind what it parsed. `ParseError` keeps the location and not the message.
pub mod Ast
pub mod Tokens
pub mod Literals
pub mod Expressions
pub mod Statements
mod Examples
pub mod Endings
