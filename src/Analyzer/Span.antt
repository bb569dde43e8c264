-- ===== src/Analyzer/Span.antt =====
-- internal/analyzer/analyzer.go: `span`, a half-open range of the text that holds one value.
use shinel.Base.{ℕ}
use shinel.Base.Bytes.{Bytes}

pub record Span : Type 0 where
  pub start : ℕ
  pub end : ℕ
  pub kind : Bytes
