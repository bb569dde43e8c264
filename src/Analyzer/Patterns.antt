-- ===== src/Analyzer/Patterns.antt =====
-- The expressions of internal/analyzer/analyzer.go and internal/analyzer/secrets.go.
pub mod Searchable
use shinel.Base.{ℕ, Bool, true, false, not, ◌&&◌, ◌||◌, List, [], ◌∷◌, leb, ◌==◌}
use shinel.Base.Bytes.{Bytes, codes, is_upper, is_digit}
use shinel.Regexp.{Regexp, nothing, rune, boundary, seq, alt, many, group}
use shinel.Regexp.Classes.{
  is_lower, one_of, is_space, star, plus, opt, up_to, times, literal, folded,
}

abbrev is_letter : ℕ → Bool
is_letter c = is_upper c || is_lower c

abbrev is_alphanumeric : ℕ → Bool
is_alphanumeric c = is_letter c || is_digit c

abbrev digit : Regexp
digit = rune is_digit

unfoldable pub email_re : Regexp
email_re = seq (plus (rune (λ c. is_alphanumeric c || one_of (codes "._%+-") c))) (
    literal (codes "@") (
      seq (plus (rune (λ c. is_alphanumeric c || one_of (codes ".-") c)))
        (literal (codes ".") (seq (rune is_letter) (plus (rune is_letter))))))

unfoldable pub ip_re : Regexp
ip_re =
    let octet = seq digit (up_to 2 digit) in
    seq boundary (seq octet (times 3 (literal (codes ".") octet) boundary))

unfoldable pub card_re : Regexp
card_re =
    let next = seq (opt (rune (one_of (codes " -")))) digit in
    seq boundary (seq digit (times 12 next (seq (up_to 6 next) boundary)))

-- A value in double quotes, in single quotes, or bare: the groups 1, 2 and 3.
unfoldable pub quoted_or_bare : Regexp
quoted_or_bare =
    alt
      (literal (codes "\"")
        (seq (group 0 (plus (rune (λ c. not (c == b'"'))))) (literal (codes "\"") nothing)))
      (alt
        (literal (codes "'")
          (seq (group 1 (plus (rune (λ c. not (c == b'\''))))) (literal (codes "'") nothing)))
        (group 2 (plus (rune (λ c. not (is_space c))))))

unfoldable pub password_words : Regexp
password_words =
    alt (folded (codes "password"))
      (alt (folded (codes "passwd")) (alt (folded (codes "pwd")) (folded (codes "passphrase"))))

-- The words of the assignment behind those of `password_words`.
unfoldable pub secret_words : Regexp
secret_words = alt (folded (codes "secret")) (
    alt (seq (folded (codes "api")) (seq (opt (rune (one_of (codes "_-")))) (folded (codes "key"))))
      (folded (codes "token")))

unfoldable pub password_assign_re : Regexp
unfolding quoted_or_bare password_words secret_words
password_assign_re = seq boundary (
    seq (alt password_words secret_words) (
      seq (star (rune is_space))
        (seq (rune (one_of (codes ":="))) (seq (star (rune is_space)) quoted_or_bare))))

unfoldable pub password_is_re : Regexp
unfolding quoted_or_bare password_words
password_is_re = seq boundary (
    seq password_words (
      seq (plus (rune is_space))
        (seq (folded (codes "is")) (seq (plus (rune is_space)) quoted_or_bare))))

abbrev is_key_char : ℕ → Bool
is_key_char c = is_alphanumeric c || one_of (codes "_-") c

abbrev twenty_or_more : (ℕ → Bool) → Regexp
twenty_or_more test = times 19 (rune test) (plus (rune test))

unfoldable pub sk_re : Regexp
sk_re = seq boundary (literal (codes "sk-") (twenty_or_more is_key_char))

unfoldable pub aws_key_re : Regexp
aws_key_re =
    seq boundary (literal (codes "AKIA") (times 16 (rune (λ c. is_upper c || is_digit c)) boundary))

unfoldable pub google_key_re : Regexp
google_key_re = seq boundary (literal (codes "AIza") (twenty_or_more is_key_char))

unfoldable pub github_pat_re : Regexp
github_pat_re = seq boundary (
    alt (literal (codes "ghp_") (twenty_or_more is_alphanumeric))
      (literal (codes "github_pat_") (twenty_or_more (λ c. is_alphanumeric c || c == b'_'))))

unfoldable pub jwt_re : Regexp
jwt_re = seq boundary (
    literal (codes "eyJ") (
      seq (plus (rune is_key_char)) (
        literal (codes ".eyJ")
          (seq (plus (rune is_key_char)) (literal (codes ".") (plus (rune is_key_char)))))))

unfoldable pub pem_re : Regexp
pem_re =
    let label = star (rune (λ c. is_upper c || c == b' ')) in
    literal (codes "-----BEGIN ") (
      seq label (
        literal (codes "PRIVATE KEY-----") (
          seq (many false (rune (λ c. true))) (
            literal (codes "-----END ") (seq label (literal (codes "PRIVATE KEY-----") nothing))))))

-- The expressions that `collectSecrets` goes through.
unfoldable pub key_res : List Regexp
unfolding sk_re aws_key_re google_key_re github_pat_re jwt_re pem_re
key_res = sk_re ∷ aws_key_re ∷ google_key_re ∷ github_pat_re ∷ jwt_re ∷ pem_re ∷ []
