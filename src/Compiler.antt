-- ===== src/Compiler.antt =====
-- compiler.cpp: the error list, the base types, the tokens, the lexer, the emitter and the parser.
pub mod Errors
pub mod Tokens
pub mod Lexer
pub mod Lex
pub mod Consumption
pub mod Stream
pub mod Lexing
pub mod State
pub mod Vars
pub mod Emitter
pub mod Parser
pub mod Primary
pub mod Expr
pub mod Clauses
pub mod Statement
pub mod Control
pub mod Program
pub mod Looks
pub mod Layout
pub mod Good
pub mod Keeps
pub mod EmitterKeeps
pub mod ParserKeeps
pub mod Advances
pub mod PrimaryKeeps
pub mod ExprKeeps
pub mod ClausesKeeps
pub mod StatementKeeps
pub mod ControlKeeps
pub mod ProgramKeeps
pub mod Compiled
pub mod Jumps
pub mod Frames
mod Runs
mod Tests
