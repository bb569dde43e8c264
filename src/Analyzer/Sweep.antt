-- ===== src/Analyzer/Sweep.antt =====
-- internal/analyzer/analyzer.go: `sortSpans` and the loop of `anonymizeText`, which puts tokens in
-- the place of the spans.
pub mod Masks
pub mod Covers
pub mod Hides
use shinel.Base.{ℕ, ◌-◌, Bool, not, List, [], ◌∷◌, ◌++◌, ltb, ◌==◌, if◌then◌else◌, drop, slice}
use shinel.Base.Bytes.{Bytes}
use shinel.Base.Sort.{sort_by}
use shinel.Analyzer.Session.{Session, token_for}
use shinel.Analyzer.Span.{Span}

-- Leftmost first, and the longest of those that start together.
abbrev pub leftmost_longest : Span → Span → Bool
leftmost_longest a b = if not (a.start == b.start) then ltb a.start b.start else ltb b.end a.end

unfoldable pub sort_spans : List Span → List Span
sort_spans = sort_by leftmost_longest

-- The loop: `last` is the end of what has been written, and `out` is the builder.
unfoldable pub sweep : Bytes → List Span → ℕ → Session → Bytes → Session × Bytes
sweep text [] last sess out = (sess, out ++ drop last text)
sweep text (s ∷ ss) last sess out =
    let skipped = sweep text ss last sess out in
    let (sess', t) = token_for sess s.kind (slice s.start s.end text) in
    let replaced = sweep text ss s.end sess' ((out ++ slice last s.start text) ++ t) in
    if ltb s.start last then skipped else replaced

-- `anonymizeText` on the spans that the detectors have found.
unfoldable pub anonymize_spans : Bytes → List Span → Session → Session × Bytes
anonymize_spans text spans sess = sweep text (sort_spans spans) 0 sess []
