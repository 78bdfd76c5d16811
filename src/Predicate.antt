-- ===== src/Predicate.antt =====
-- Package internal/predicate: tokens, the tokenizer, the parser, values and the evaluator. Proofs
-- stand in modules of their own, named for what they show.
pub mod Token
pub mod Lexer
pub mod Syntax
pub mod Parser
pub mod Grammar
pub mod Sound
pub mod Shorter
pub mod Fuel
pub mod Value
pub mod Eval
pub mod Reads
mod Tests
