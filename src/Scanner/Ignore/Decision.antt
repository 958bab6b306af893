-- ===== src/Scanner/Ignore/Decision.antt =====
-- Which rule decides, and which lines make no rule.
use llamacodelab.Prelude.{
  Bool, true, false, not, Option, none, some, List, [], ◌∷◌, ◌++◌, if◌then◌else◌, Bytes, ◌≡◌, ◌↔◌,
  ◌⊎◌, inl, inr, refl, ◌∙◌, arith, Bool-cases, Option-cases,
}
use llamacodelab.Scanner.Ignore.{
  IgnoreRule, matches_rule, undefined, starts_with_byte, without_first, parse_pattern, parse_line,
  apply_rules, ignores_from, ignores,
}

module _ (rules_for : List Bytes → List IgnoreRule) where
  with_path : List Bytes → List IgnoreRule → List (IgnoreRule × List Bytes)
  with_path relative [] = []
  with_path relative (rule ∷ rules) = (rule, relative) ∷ with_path relative rules

  -- All rules that concern a candidate, each with the candidate's path from the directory of its file:
  -- those of the root first, those of the parent last.
  pub concerning : List Bytes → List Bytes → List (IgnoreRule × List Bytes)
  concerning directory [] = []
  concerning directory (c ∷ relative) =
      with_path (c ∷ relative) (rules_for directory) ++ concerning (directory ++ (c ∷ [])) relative

  -- The last of the rules that matches.
  pub last_match : List (IgnoreRule × List Bytes) → Option IgnoreRule
  last_match [] = none
  last_match ((rule, path) ∷ rules) = elim (last_match rules) [
    | some later ↦ some later
    | none ↦ if matches_rule rule path then some rule else none
  ]

  pub decision : Bool → Option IgnoreRule → Bool
  decision before none = before
  decision before (some rule) = not rule.negated

  decided : Bool → List (IgnoreRule × List Bytes) → Bool
  decided before rules = decision before (last_match rules)

  decided-cons :
      (before : Bool) (rule : IgnoreRule) (path : List Bytes)
      (rules : List (IgnoreRule × List Bytes))
      → decided (if matches_rule rule path then not rule.negated else before) rules
        ≡ decided before ((rule, path) ∷ rules)
  unfolding decided decision last_match
  decided-cons before rule path rules = elim (Option-cases (last_match rules)) [
    | inr (r, e) ↦ rw (e, last_match) refl
    | inl e ↦ elim (Bool-cases (matches_rule rule path)) [
      | inl m ↦ rw (e, last_match) (rw (m, last_match) refl)
      | inr m ↦ rw (e, last_match) (rw (m, last_match) refl)
    ]
  ]

  decided-rules :
      (relative : List Bytes) (before : Bool) (rules : List IgnoreRule)
      (more : List (IgnoreRule × List Bytes))
      → decided (apply_rules rules_for relative before rules) more
        ≡ decided before (with_path relative rules ++ more)
  unfolding apply_rules with_path
  decided-rules relative before [] more = refl
  decided-rules relative before (rule ∷ rules) more =
      decided-rules relative (if matches_rule rule relative then not rule.negated else before) rules
        more
      ∙ decided-cons before rule relative (with_path relative rules ++ more)

  ignores_from-decided :
      (directory relative : List Bytes) (before : Bool)
      → ignores_from rules_for directory relative before
        ≡ decided before (concerning directory relative)
  unfolding ignores_from concerning decided decision last_match
  ignores_from-decided directory [] before = refl
  ignores_from-decided directory (c ∷ []) before =
      decided-rules (c ∷ []) before (rules_for directory) []
  ignores_from-decided directory (c ∷ d ∷ relative) before =
      ignores_from-decided (directory ++ (c ∷ [])) (d ∷ relative)
        (apply_rules rules_for (c ∷ d ∷ relative) before (rules_for directory))
      ∙ decided-rules (c ∷ d ∷ relative) before (rules_for directory)
          (concerning (directory ++ (c ∷ [])) (d ∷ relative))

  -- Whether a path is ignored is up to the last rule that matches, of those of all directories above it
  -- from the root down: it is ignored if that rule is not negated, and not ignored if no rule matches.
  pub ignores-last_match :
      (candidate : List Bytes)
      → ignores rules_for candidate ≡ decision false (last_match (concerning [] candidate))
  unfolding ignores decided
  ignores-last_match candidate = ignores_from-decided [] candidate false

parse_pattern-undefined :
    (negated : Bool) (line : Bytes) → (parse_pattern negated line ≡ undefined) ↔ (line ≡ [])
unfolding parse_pattern
parse_pattern-undefined negated [] = ((λ h. refl), (λ h. refl))
parse_pattern-undefined negated (c ∷ line) = ground arith

-- A line of a `.gitignore` is undefined behaviour, the last byte of an empty string, exactly where it is
-- `/` or `!/`.
pub parse_line-undefined :
    (line : Bytes)
    → (parse_line line ≡ undefined) ↔ ((line ≡ b'/' ∷ []) ⊎ (line ≡ b'!' ∷ b'/' ∷ []))
unfolding parse_line starts_with_byte without_first
parse_line-undefined [] = ground arith
parse_line-undefined (c ∷ []) =
    ground (arith, parse_pattern-undefined false (c ∷ []), parse_pattern-undefined false [])
parse_line-undefined (c ∷ d ∷ []) = ground (
  arith,
  parse_pattern-undefined false (c ∷ d ∷ []),
  parse_pattern-undefined false (d ∷ []),
  parse_pattern-undefined true (d ∷ []),
  parse_pattern-undefined true [],
)
parse_line-undefined (c ∷ d ∷ e ∷ line) = ground (
  arith,
  parse_pattern-undefined false (c ∷ d ∷ e ∷ line),
  parse_pattern-undefined false (d ∷ e ∷ line),
  parse_pattern-undefined true (d ∷ e ∷ line),
  parse_pattern-undefined true (e ∷ line),
)
