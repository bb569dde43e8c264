-- ===== src/Analyzer/Patterns/Searchable.antt =====
-- The expressions of internal/analyzer repeat nothing empty, and none matches an empty text.
use shinel.Base.{refl}
use shinel.Base.Sort.{All}
use shinel.Analyzer.Patterns.{
  email_re, ip_re, card_re, password_assign_re, password_is_re, sk_re, aws_key_re, google_key_re,
  github_pat_re, jwt_re, pem_re, key_res,
}
use shinel.Regexp.Places.{takes, is_proper}
use shinel.Regexp.Searches.{IsSearchable}

pub email_re-IsSearchable : IsSearchable email_re
unfolding email_re takes is_proper
email_re-IsSearchable = record { proper = refl; taking = refl }

pub ip_re-IsSearchable : IsSearchable ip_re
unfolding ip_re takes is_proper
ip_re-IsSearchable = record { proper = refl; taking = refl }

pub card_re-IsSearchable : IsSearchable card_re
unfolding card_re takes is_proper
card_re-IsSearchable = record { proper = refl; taking = refl }

pub password_assign_re-IsSearchable : IsSearchable password_assign_re
unfolding password_assign_re takes is_proper
password_assign_re-IsSearchable = record { proper = refl; taking = refl }

pub password_is_re-IsSearchable : IsSearchable password_is_re
unfolding password_is_re takes is_proper
password_is_re-IsSearchable = record { proper = refl; taking = refl }

sk_re-IsSearchable : IsSearchable sk_re
unfolding sk_re takes is_proper
sk_re-IsSearchable = record { proper = refl; taking = refl }

aws_key_re-IsSearchable : IsSearchable aws_key_re
unfolding aws_key_re takes is_proper
aws_key_re-IsSearchable = record { proper = refl; taking = refl }

google_key_re-IsSearchable : IsSearchable google_key_re
unfolding google_key_re takes is_proper
google_key_re-IsSearchable = record { proper = refl; taking = refl }

github_pat_re-IsSearchable : IsSearchable github_pat_re
unfolding github_pat_re takes is_proper
github_pat_re-IsSearchable = record { proper = refl; taking = refl }

jwt_re-IsSearchable : IsSearchable jwt_re
unfolding jwt_re takes is_proper
jwt_re-IsSearchable = record { proper = refl; taking = refl }

pem_re-IsSearchable : IsSearchable pem_re
unfolding pem_re takes is_proper
pem_re-IsSearchable = record { proper = refl; taking = refl }

pub key_res-IsSearchable : All IsSearchable key_res
unfolding key_res
key_res-IsSearchable = (
  sk_re-IsSearchable,
  (
    aws_key_re-IsSearchable,
    (
      google_key_re-IsSearchable,
      (github_pat_re-IsSearchable, (jwt_re-IsSearchable, (pem_re-IsSearchable, tt))),
    ),
  ),
)
