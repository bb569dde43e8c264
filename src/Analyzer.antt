-- ===== src/Analyzer.antt =====
-- internal/analyzer: what finds sensitive values in a text and puts tokens in their place.
pub mod Luhn
pub mod Patterns
pub mod MlClient
pub mod Collect
pub mod Custom
pub mod Secrets
pub mod Dictionary
pub mod Json
pub mod Guesses
pub mod Span
pub mod Conflict
pub mod Session
pub mod Sweep
