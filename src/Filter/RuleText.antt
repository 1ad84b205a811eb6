-- ===== src/Filter/RuleText.antt =====
-- filter.rs, `FilterBuilder::filter_rule`: reading back a written rule.
use ripsync.Prelude.{
  ℕ, ◌≡◌, refl, ap, ◌∙◌, arith, Bool, true, false, Option, none, some, List, [], ◌∷◌, ◌++◌, ok, err,
  list_eq, if◌then◌else◌,
}
use ripsync.Errors.{Outcome, filter}
use ripsync.Filter.Text.{is_whitespace, trim_start, trim_end, trim, split_once}
use ripsync.Filter.{FilterBuilder, filter_rule}

abbrev pub rule_sign : Bool → ℕ
rule_sign true = b'+'
rule_sign false = b'-'

-- A pattern that begins and ends with a character that is no blank.
pub record IsTrimmed (c : ℕ) (text : List ℕ) : Type 0 where
  pub begins : is_whitespace c ≡ false
  pub ends : trim_end (c ∷ text) ≡ c ∷ text

trim_start_kept :
    (c : ℕ) (text : List ℕ) → is_whitespace c ≡ false → trim_start (c ∷ text) ≡ c ∷ text
unfolding trim_start
trim_start_kept c text e = rw e

-- One character in front of a text that `trim_end` has already cut.
abbrev keep : ℕ → List ℕ → List ℕ
keep c [] = if is_whitespace c then [] else c ∷ []
keep c (d ∷ rest) = c ∷ d ∷ rest

trim_end_step : (c : ℕ) (text : List ℕ) → trim_end (c ∷ text) ≡ keep c (trim_end text)
unfolding trim_end
trim_end_step c text = ground arith

trim_end_cons :
    (c d : ℕ) (text : List ℕ)
    → trim_end (d ∷ text) ≡ d ∷ text
    → trim_end (c ∷ d ∷ text) ≡ c ∷ d ∷ text
trim_end_cons c d text e = trim_end_step c (d ∷ text) ∙ ap (keep c) e

trim_kept :
    (c : ℕ) (text : List ℕ)
    → is_whitespace c ≡ false
    → trim_end (c ∷ text) ≡ c ∷ text
    → trim (c ∷ text) ≡ c ∷ text
unfolding trim
trim_kept c text e h = ap trim_end (trim_start_kept c text e) ∙ h

rule_sign-no_blank : (is_include : Bool) → is_whitespace (rule_sign is_include) ≡ false
unfolding is_whitespace
rule_sign-no_blank true = refl
rule_sign-no_blank false = refl

-- What is done with the sign and the pattern.
abbrev split_rule : FilterBuilder → Option (List ℕ × List ℕ) → Outcome FilterBuilder
split_rule b none = err filter
split_rule b (some (sign, pat)) =
    if list_eq sign (b'+' ∷ [])
    then ok (record b { filters = b.filters ++ ((true, trim pat) ∷ []) })
    else (if list_eq sign (b'-' ∷ [])
        then ok (record b { filters = b.filters ++ ((false, trim pat) ∷ []) })
        else err filter)

filter_rule-split_rule :
    (b : FilterBuilder) (rule : List ℕ) → filter_rule b rule ≡ split_rule b (split_once (trim rule))
unfolding filter_rule
filter_rule-split_rule b rule = ground arith

-- A rule written as its sign, a blank and a trimmed pattern is added with that sign and pattern,
-- behind the rules that were there.
pub filter_rule-rule_sign :
    (b : FilterBuilder) (is_include : Bool) (c : ℕ) (text : List ℕ)
    → IsTrimmed c text
    → filter_rule b (rule_sign is_include ∷ b' ' ∷ c ∷ text)
      ≡ ok (record b { filters = b.filters ++ ((is_include, c ∷ text) ∷ []) })
unfolding split_once list_eq
filter_rule-rule_sign b is_include c text t =
    filter_rule-split_rule b (rule_sign is_include ∷ b' ' ∷ c ∷ text)
    ∙ ap (λ r. split_rule b (split_once r)) whole
    ∙ by_sign is_include
  where
    pat : trim (c ∷ text) ≡ c ∷ text
    pat = trim_kept c text t.begins t.ends

    whole : trim (rule_sign is_include ∷ b' ' ∷ c ∷ text) ≡ rule_sign is_include ∷ b' ' ∷ c ∷ text
    whole =
        trim_kept (rule_sign is_include) (b' ' ∷ c ∷ text) (rule_sign-no_blank is_include)
          (trim_end_cons (rule_sign is_include) b' ' (c ∷ text) (trim_end_cons b' ' c text t.ends))

    by_sign :
        (s : Bool)
        → split_rule b (split_once (rule_sign s ∷ b' ' ∷ c ∷ text))
          ≡ ok (record b { filters = b.filters ++ ((s, c ∷ text) ∷ []) })
    by_sign true = ap (λ p. ok (record b { filters = b.filters ++ ((true, p) ∷ []) })) pat
    by_sign false = ap (λ p. ok (record b { filters = b.filters ++ ((false, p) ∷ []) })) pat
