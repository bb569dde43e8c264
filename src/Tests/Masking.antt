-- ===== src/Tests/Masking.antt =====
-- internal/analyzer on concrete texts.
use shinel.Base.{
  ℕ, ◌≤◌, ◌≡◌, refl, ◌∙◌, ap, true, false, [], ◌∷◌, ◌++◌, List, Option, none, some, arith, length,
}
use shinel.Base.Bytes.{Bytes, codes, bytes_eq}
use shinel.Base.Maps.{Map, lookup, insert, All-lookup}
use shinel.Base.Sort.{All, any, sort_by}
use shinel.Analyzer.Conflict.{resolve_conflicts}
use shinel.Analyzer.Conflict.Overlaps.{unclaimed, resolve_conflicts-unclaimed}
use shinel.Analyzer.Luhn.{luhn}
use shinel.Analyzer.Luhn.Errors.{luhn-single_error}
use shinel.Analyzer.Session.{new_session, token_text, count_of, token_for}
use shinel.Analyzer.Session.Sound.{IsSound, new_session-IsSound, token_for-IsSound}
use shinel.Analyzer.Span.{Span}
use shinel.Analyzer.Sweep.{sort_spans, sweep, anonymize_spans}
use shinel.Analyzer.Sweep.Masks.{Masks, Fits, anonymize_spans-Masks}
use shinel.Proxy.Demask.{demask}
use shinel.Proxy.Stream.{max_token_len}
use shinel.Proxy.Token.{Letters}
use shinel.Proxy.Token.Tests.{Letters-of_all_upper, NoBracket-of_no_bracket}
use shinel.RoundTrip.Quoted.{NeedsNoEscape, AllUtf8, read-demask-anonymize_spans}
use shinel.Proxy.Escape.Reader.{plain, step_plain, read_string}
use shinel.Proxy.Escape.Reader.Valid.{valid_from}
use shinel.RoundTrip.{TokenFree, NoBracket-TokenFree, AllShort, Serves, demask-anonymize_spans}
use shinel.Vault.{Reply, value, not_found}

abbrev card : Bytes
card = codes "4111111111111111"

luhn_visa : luhn card ≡ true
unfolding luhn
luhn_visa = refl

luhn_typo : luhn (codes "4111111111111112") ≡ false
unfolding luhn
luhn_typo = refl

luhn-single_error_example : luhn (codes "4111121111111111") ≡ false
luhn-single_error_example =
    luhn-single_error (codes "41111") (codes "1111111111") b'1' b'2' refl refl (omega arith)
      luhn_visa

abbrev pub email : Bytes
email = codes "EMAIL"

abbrev pub person : Bytes
person = codes "PERSON"

abbrev at : ℕ → ℕ → Bytes → Span
at a b kind = record { start = a; end = b; kind = kind }

-- `Ivan ivan@x.com`, with the address found and the model's guess over all of it.
abbrev found : List Span
found = at 5 15 email ∷ []

abbrev guesses : List Span
guesses = at 0 15 person ∷ at 0 4 person ∷ []

resolve_guesses : resolve_conflicts found guesses ≡ at 5 15 email ∷ at 0 4 person ∷ []
resolve_guesses = resolve_conflicts-unclaimed found guesses ∙ (unfold any in refl)

resolve_conflicts-unclaimed_example :
    resolve_conflicts found guesses ≡ found ++ unclaimed found guesses
resolve_conflicts-unclaimed_example = resolve_conflicts-unclaimed found guesses

abbrev pub text : Bytes
text = codes "Ivan ivan@x.com, ivan@x.com"

abbrev pub spans : List Span
spans = at 5 15 email ∷ at 17 27 email ∷ at 0 4 person ∷ []

pub masked_text :
    (anonymize_spans text spans new_session).1 ≡ codes "[PERSON_1] [EMAIL_1], [EMAIL_1]"
unfolding anonymize_spans sort_spans sweep token_for lookup insert count_of token_text bytes_eq
    sort_by
masked_text = refl

abbrev pub mapping : Map Bytes
mapping = (codes "[PERSON_1]", codes "Ivan") ∷ (codes "[EMAIL_1]", codes "ivan@x.com") ∷ []

pub mapping_of_text : (anonymize_spans text spans new_session).0.mapping ≡ mapping
unfolding anonymize_spans sort_spans sweep token_for lookup insert count_of token_text bytes_eq
    sort_by
mapping_of_text = refl

-- A vault that answers from a table and never changes.
abbrev answer : Option Bytes → Reply
answer none = not_found
answer (some x) = value x

abbrev table : Map Bytes → Bytes → Map Bytes × Reply
table m t = (m, answer (lookup t m))

table-Serves : (m : Map Bytes) → Serves table m (λ v. v ≡ m)
table-Serves m = record {
  answers = λ v t x p e. ap (λ k. answer (lookup t k)) p ∙ ap answer e;
  keeps = λ v t p. p;
}

email-Letters : Letters email
email-Letters = Letters-of_all_upper b'E' (codes "MAIL") refl

person-Letters : Letters person
person-Letters = Letters-of_all_upper b'P' (codes "ERSON") refl

pub spans_fit : All (Fits text) spans
spans_fit = (
  record { ordered = omega arith; inside = omega arith; letters = email-Letters },
  (
    record { ordered = omega arith; inside = omega arith; letters = email-Letters },
    (record { ordered = omega arith; inside = omega arith; letters = person-Letters }, tt),
  ),
)

pub text-TokenFree : TokenFree text
text-TokenFree = NoBracket-TokenFree (NoBracket-of_no_bracket text refl)

pub mapping-AllShort : AllShort (anonymize_spans text spans new_session).0.mapping
mapping-AllShort =
    rw mapping_of_text
      (λ t x e. All-lookup (λ t x. length t ≤ max_token_len) mapping t x (omega arith) e)

demask-anonymize_spans_example :
    let (sess, masked) = anonymize_spans text spans new_session in
    Masks sess.mapping text masked (demask table sess.mapping masked).1
demask-anonymize_spans_example =
    demask-anonymize_spans table (λ v. v ≡ (anonymize_spans text spans new_session).0.mapping) text
      spans (anonymize_spans text spans new_session).0.mapping spans_fit text-TokenFree
      mapping-AllShort (table-Serves (anonymize_spans text spans new_session).0.mapping) refl

anonymize_spans-Masks_example :
    let (sess, masked) = anonymize_spans text spans new_session in
    (shown : Bytes) × Masks sess.mapping text masked shown × IsSound sess
anonymize_spans-Masks_example = anonymize_spans-Masks text spans spans_fit new_session-IsSound

token_for-IsSound_example : IsSound (token_for new_session email (codes "a@b.co")).0
token_for-IsSound_example =
    token_for-IsSound email (codes "a@b.co") email-Letters new_session-IsSound

-- A value with a quote.
abbrev said : Bytes
said = codes "say a\"b now"

abbrev quoted : List Span
quoted = at 4 7 person ∷ []

said_masked : (anonymize_spans said quoted new_session).1 ≡ codes "say [PERSON_1] now"
unfolding anonymize_spans sort_spans sweep token_for lookup insert count_of token_text bytes_eq
    sort_by
said_masked = refl

abbrev said_mapping : Map Bytes
said_mapping = (codes "[PERSON_1]", codes "a\"b") ∷ []

mapping_of_said : (anonymize_spans said quoted new_session).0.mapping ≡ said_mapping
unfolding anonymize_spans sort_spans sweep token_for lookup insert count_of token_text bytes_eq
    sort_by
mapping_of_said = refl

said-AllShort : AllShort (anonymize_spans said quoted new_session).0.mapping
said-AllShort =
    rw mapping_of_said
      (λ t x e. All-lookup (λ t x. length t ≤ max_token_len) said_mapping t x (omega arith) e)

said_utf8 : All (λ (e : Bytes × Bytes). valid_from 0 e.1 ≡ true) said_mapping
unfolding valid_from
said_utf8 = (refl, tt)

said-AllUtf8 : AllUtf8 (anonymize_spans said quoted new_session).0.mapping
said-AllUtf8 =
    rw mapping_of_said
      (λ t x e. All-lookup (λ t x. valid_from 0 x ≡ true) said_mapping t x said_utf8 e)

sent-NeedsNoEscape : NeedsNoEscape (codes "say [PERSON_1] now")
unfolding step_plain
sent-NeedsNoEscape = (
  refl,
  (
    refl,
    (
      refl,
      (
        refl,
        (
          refl,
          (
            refl,
            (
              refl,
              (
                refl,
                (refl, (refl, (refl, (refl, (refl, (refl, (refl, (refl, (refl, (refl, tt)))))))))),
              ),
            ),
          ),
        ),
      ),
    ),
  ),
)

read-demask-anonymize_spans_example :
    let (sess, masked) = anonymize_spans said quoted new_session in
    read_string plain ((demask table sess.mapping masked).1 ++ b'"' ∷ codes "}")
    ≡ some (said, codes "}")
read-demask-anonymize_spans_example =
    let m = (anonymize_spans said quoted new_session).0.mapping in
    read-demask-anonymize_spans table (λ v. v ≡ m) said quoted m (codes "}")
      (record { ordered = omega arith; inside = omega arith; letters = person-Letters }, tt)
      (NoBracket-TokenFree (NoBracket-of_no_bracket said refl)) said-AllShort (table-Serves m) refl
      (rw said_masked sent-NeedsNoEscape) said-AllUtf8
