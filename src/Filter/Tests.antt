-- ===== src/Filter/Tests.antt =====
-- Runs of the filter's theorems, with patterns that match their own text.
use ripsync.Prelude.{ℕ, ◌≡◌, refl, true, false, List, [], ◌∷◌, none, list_eq, ok}
use ripsync.Filter.{Globset, Filter, FilterBuilder, no_rules, filter_rule, globs_of}
use ripsync.Filter.Text.{is_whitespace, trim_end}
use ripsync.Filter.RuleText.{IsTrimmed, rule_sign, filter_rule-rule_sign}

abbrev literal_globs : Globset
literal_globs = record {
  glob_valid = λ _. true;
  set_valid = λ _. true;
  glob_match = λ pat rel. list_eq pat rel;
}

abbrev secret : List ℕ
secret = 97 ∷ 98 ∷ []

abbrev without_secret : FilterBuilder
without_secret = record no_rules { excludes = secret ∷ [] }

abbrev built_filter : Filter
built_filter = record {
  rules = record { is_include = false; set = globs_of literal_globs secret } ∷ [];
  files_from = none;
}

secret-IsTrimmed : IsTrimmed 97 (98 ∷ [])
unfolding is_whitespace trim_end
secret-IsTrimmed = record { begins = refl; ends = refl }

filter_rule-rule_sign_example :
    filter_rule no_rules (rule_sign false ∷ b' ' ∷ secret)
    ≡ ok (record no_rules { filters = (false, secret) ∷ [] })
filter_rule-rule_sign_example = filter_rule-rule_sign no_rules false 97 (98 ∷ []) secret-IsTrimmed
