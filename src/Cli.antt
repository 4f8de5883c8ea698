-- ===== src/Cli.antt =====
-- The command line of marie-cli.
pub mod Tokenizer
pub mod Args
mod Examples
