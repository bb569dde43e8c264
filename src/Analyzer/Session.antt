-- ===== src/Analyzer/Session.antt =====
-- internal/analyzer/analyzer.go: `session`, which gives out the tokens of one request.
pub mod Names
pub mod Sound
use shinel.Base.{ℕ, ◌+◌, [], ◌∷◌, ◌++◌, Option, none, some}
use shinel.Base.Bytes.{Bytes}
use shinel.Base.Decimal.{decimal}
use shinel.Base.Maps.{Map, lookup, insert}

pub record Session : Type 0 where
  pub mapping : Map Bytes
  pub token_of : Map Bytes
  pub counters : Map ℕ

abbrev pub new_session : Session
new_session = record { mapping = []; token_of = []; counters = [] }

-- `fmt.Sprintf("[%s_%d]", kind, n)`.
unfoldable pub token_text : Bytes → ℕ → Bytes
unfolding decimal
token_text kind n = b'[' ∷ (kind ++ (b'_' ∷ (decimal n ++ (b']' ∷ []))))

-- A kind that is not in the map counts 0.
unfoldable pub count_of : Bytes → Map ℕ → ℕ
count_of kind counters = elim (lookup kind counters) [ none ↦ 0 | some n ↦ n ]

-- The new session and the token of the value.
unfoldable pub token_for : Session → Bytes → Bytes → Session × Bytes
token_for sess kind value = elim (lookup value sess.token_of) [
  | some t ↦ (sess, t)
  | none ↦
      let n = count_of kind sess.counters + 1 in
      let t = token_text kind n in
      (
        record {
          mapping = insert t value sess.mapping;
          token_of = insert value t sess.token_of;
          counters = insert kind n sess.counters;
        },
        t,
      )
]
