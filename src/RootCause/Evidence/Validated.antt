-- ===== src/RootCause/Evidence/Validated.antt =====
-- Which rules are executed.
use bricktrace.Prelude.{
  ℕ, Bool, true, String, List, [], ◌∷◌, Option, none, some, if◌then◌else◌, ◌≡◌, refl, ap,
  Bool-cases, inl, inr,
}
use bricktrace.Validators.Url.{truthy}
use bricktrace.Validators.Escape.{text_of}
use bricktrace.RootCause.Evidence.{
  Evidence, Rule, Counts, sampled, rule_evidence, rules_evidence, get_dq_violations,
}

module _ (ratio : ℕ → ℕ → String) (validate_expression : String → Bool)
    (sample other : String → Option (Option Counts))
    (agree : (expr : String) → validate_expression expr ≡ true → sample expr ≡ other expr) where
  if_valid :
      (expr : String) (f : Option (Option Counts) → List Evidence)
      → (if validate_expression expr then f (sample expr) else [])
        ≡ (if validate_expression expr then f (other expr) else [])
  if_valid expr f = elim (Bool-cases (validate_expression expr)) [
    | inl e ↦ rw (e, agree expr e) refl
    | inr e ↦ rw e refl
  ]

  rule_evidence-agree :
      (rule : Rule)
      → rule_evidence ratio validate_expression sample rule
        ≡ rule_evidence ratio validate_expression other rule
  unfolding rule_evidence
  rule_evidence-agree rule =
      ap (λ es. if truthy rule.expression then es else [])
        (if_valid (text_of rule.expression) (sampled ratio rule (text_of rule.expression)))

  rules_evidence-agree :
      (rules : List Rule)
      → rules_evidence ratio validate_expression sample rules
        ≡ rules_evidence ratio validate_expression other rules
  unfolding rules_evidence
  rules_evidence-agree [] = refl
  rules_evidence-agree (rule ∷ rules) =
      rw (rule_evidence-agree rule, rules_evidence-agree rules) refl

  -- The evidence goes by the results of samples at validated expressions only: two warehouses that
  -- answer alike for every expression that passes the validation give the same evidence, whatever they
  -- would answer for the others.
  pub get_dq_violations-agree :
      (rules : Option (List Rule))
      → get_dq_violations ratio validate_expression sample rules
        ≡ get_dq_violations ratio validate_expression other rules
  unfolding get_dq_violations
  get_dq_violations-agree none = refl
  get_dq_violations-agree (some rules) = rules_evidence-agree rules
