-- ===== src/Analyzer/Session/Sound.antt =====
-- The maps of a session in internal/analyzer/analyzer.go agree with one another.
use shinel.Base.{
  ℕ, ◌+◌, ◌≤◌, ◌≡◌, refl, sym, ap, false, [], none, some, arith, Bool-cases, Option-cases, inl, inr,
  ◌⊎◌,
}
use shinel.Base.Bytes.{Bytes, bytes_eq, bytes_eq_iff}
use shinel.Base.Maps.{Map, lookup, insert, lookup-insert, Distinct, Distinct-insert}
use shinel.Analyzer.Session.{Session, new_session, token_text, count_of, token_for}
use shinel.Analyzer.Session.Names.{token_text-IsToken, token_text-injective}
use shinel.Proxy.Token.{Letters, IsToken}

-- `t` is spelled for a kind of letters, with a number that has been given out.
pub record IsGiven (counters : Map ℕ) (t : Bytes) : Type 0 where
  pub kind : Bytes
  pub number : ℕ
  pub letters : Letters kind
  pub given : number ≤ count_of kind counters
  pub spelled : t ≡ token_text kind number

pub record IsSound (s : Session) : Type 0 where
  pub given : (t v : Bytes) → lookup t s.mapping ≡ some v → IsGiven s.counters t
  pub there : (t v : Bytes) → lookup t s.mapping ≡ some v → lookup v s.token_of ≡ some t
  pub back : (t v : Bytes) → lookup v s.token_of ≡ some t → lookup t s.mapping ≡ some v
  pub distinct : Distinct s.mapping

lookup-nil {ℓ} : {V : Type ℓ} (k : Bytes) → lookup {V = V} k [] ≡ none
unfolding lookup
lookup-nil k = refl

pub new_session-IsSound : IsSound new_session
new_session-IsSound = record {
  given = λ t v e. absurd (cc (e, lookup-nil {V = Bytes} t));
  there = λ t v e. absurd (cc (e, lookup-nil {V = Bytes} t));
  back = λ t v e. absurd (cc (e, lookup-nil {V = Bytes} v));
  distinct = tt;
}

-- Counting one more for a kind takes nothing from any other.
count-grows :
    (kind k : Bytes) (c : Map ℕ) → count_of k c ≤ count_of k (insert kind (count_of kind c + 1) c)
unfolding count_of
count-grows kind k c =
    ground (arith, lookup-insert kind k (count_of kind c + 1) c, bytes_eq_iff kind k)

count-given : (kind : Bytes) (n : ℕ) (c : Map ℕ) → count_of kind (insert kind n c) ≡ n
unfolding count_of
count-given kind n c = ground (arith, lookup-insert kind kind n c, bytes_eq_iff kind kind)

-- The next token of a kind is in no entry yet.
next_is_fresh :
    {s : Session} (kind : Bytes)
    → Letters kind
    → IsSound s
    → lookup (token_text kind (count_of kind s.counters + 1)) s.mapping ≡ none
next_is_fresh {s} kind l h =
    elim (Option-cases (lookup (token_text kind (count_of kind s.counters + 1)) s.mapping)) [
      | inl e ↦ e
      | inr (v, e) ↦
          let g = h.given _ v e in
          let (same, n) =
            token_text-injective (count_of kind s.counters + 1) g.number l g.letters g.spelled in
          absurd (omega (arith, n, g.given, ap (λ k. count_of k s.counters) same))
    ]

-- The session behind a value that had no token, and its token.
abbrev given_token : Session → Bytes → Bytes
given_token s kind = token_text kind (count_of kind s.counters + 1)

abbrev with_token : Session → Bytes → Bytes → Session
with_token s kind value = record {
  mapping = insert (given_token s kind) value s.mapping;
  token_of = insert value (given_token s kind) s.token_of;
  counters = insert kind (count_of kind s.counters + 1) s.counters;
}

-- The two ways that `tokenFor` ends.
pub token_for_cases :
    (s : Session) (kind value : Bytes)
    → ((t : Bytes) × (lookup value s.token_of ≡ some t) × (token_for s kind value ≡ (s, t)))
      ⊎ ((lookup value s.token_of ≡ none)
          × (token_for s kind value ≡ (with_token s kind value, given_token s kind)))
unfolding token_for
token_for_cases s kind value = elim (Option-cases (lookup value s.token_of)) [
  | inr (t, e) ↦ inl (t, e, rw (token_for, e))
  | inl e ↦ inr (e, rw (token_for, e))
]

module _ {s : Session} (kind value : Bytes) (l : Letters kind) (h : IsSound s) where
  fresh : lookup (given_token s kind) s.mapping ≡ none
  fresh = next_is_fresh kind l h

  old_entry :
      (t v : Bytes)
      → bytes_eq (given_token s kind) t ≡ false
      → lookup t (with_token s kind value).mapping ≡ some v
      → lookup t s.mapping ≡ some v
  old_entry t v n e = ground (arith, lookup-insert (given_token s kind) t value s.mapping)

  still-IsGiven :
      (t v : Bytes)
      → lookup t (with_token s kind value).mapping ≡ some v
      → IsGiven (with_token s kind value).counters t
  still-IsGiven t v e = elim (Bool-cases (bytes_eq (given_token s kind) t)) [
    | inl same ↦ record {
      kind = kind;
      number = count_of kind s.counters + 1;
      letters = l;
      given = omega (arith, count-given kind (count_of kind s.counters + 1) s.counters);
      spelled = sym ((bytes_eq_iff _ t).0 same);
    }
    | inr other ↦
        let g = h.given t v (old_entry t v other e) in
        record {
          kind = g.kind;
          number = g.number;
          letters = g.letters;
          given = omega (arith, g.given, count-grows kind g.kind s.counters);
          spelled = g.spelled;
        }
  ]

  with_token-IsSound : lookup value s.token_of ≡ none → IsSound (with_token s kind value)
  with_token-IsSound unseen = record {
    given = still-IsGiven;
    there = λ t v e. ground (
      arith,
      lookup-insert (given_token s kind) t value s.mapping,
      lookup-insert value v (given_token s kind) s.token_of,
      bytes_eq_iff (given_token s kind) t,
      bytes_eq_iff value v,
      h.there t v,
      unseen,
    );
    back = λ t v e. ground (
      arith,
      lookup-insert (given_token s kind) t value s.mapping,
      lookup-insert value v (given_token s kind) s.token_of,
      bytes_eq_iff (given_token s kind) t,
      bytes_eq_iff value v,
      h.back t v,
      fresh,
    );
    distinct = Distinct-insert (given_token s kind) value s.mapping h.distinct;
  }

  -- The value has its token in the new session.
  pub token_for-lookup :
      lookup (token_for s kind value).1 (token_for s kind value).0.mapping ≡ some value
  token_for-lookup = elim (token_for_cases s kind value) [
    | inl (t, e, r) ↦ rw r (h.back t value e)
    | inr (_, r) ↦ rw r (
        ground (
          arith,
          lookup-insert (given_token s kind) (given_token s kind) value s.mapping,
          bytes_eq_iff (given_token s kind) (given_token s kind),
        ))
  ]

  -- What the session had, it still has.
  pub token_for-keeps :
      (t v : Bytes)
      → lookup t s.mapping ≡ some v
      → lookup t (token_for s kind value).0.mapping ≡ some v
  token_for-keeps t v e = elim (token_for_cases s kind value) [
    | inl (_, _, r) ↦ rw r e
    | inr (_, r) ↦ rw r (
        ground (
          arith,
          lookup-insert (given_token s kind) t value s.mapping,
          bytes_eq_iff (given_token s kind) t,
          fresh,
        ))
  ]

  pub token_for-IsToken : IsToken (token_for s kind value).1
  token_for-IsToken = elim (token_for_cases s kind value) [
    | inl (t, e, r) ↦
        let g = h.given t value (h.back t value e) in
        rw (r, g.spelled) (token_text-IsToken g.number g.letters)
    | inr (_, r) ↦ rw r (token_text-IsToken _ l)
  ]

  -- Where the maps of a session from tokens to values and back are inverse to one another, no token
  -- stands twice, and each is made of letters and of a number that is not over the count of its
  -- kind, `tokenFor` with a kind of letters leaves a session with all of that.
  pub token_for-IsSound : IsSound (token_for s kind value).0
  token_for-IsSound = elim (token_for_cases s kind value) [
    | inl (_, _, r) ↦ rw r h
    | inr (unseen, r) ↦ rw r (with_token-IsSound unseen)
  ]
