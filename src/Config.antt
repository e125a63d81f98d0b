-- ===== src/Config.antt =====
-- crates/ngxora-config/src: the lexer, the parser and the syntax tree of configuration files.
pub mod Ast
pub mod Lexer
pub mod Grammar
pub mod Parser
pub mod Include
pub mod RoundTrip
