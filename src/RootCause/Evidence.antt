-- ===== src/RootCause/Evidence.antt =====
-- backend/server/root_cause.py, `_get_failed_runs_around` and `_get_dq_violations`. Parameters are the
-- rows of the queries (`none` where a query raises), `_validate_expression` of backend/routes/dq.py
-- (`false` where it raises), and the ratio that Python rounds to four digits.
pub mod Validated
use bricktrace.Prelude.{
  ℕ, ◌-◌, ◌==◌, Bool, true, false, String, List, [], ◌∷◌, ◌++◌, Option, none, some, if◌then◌else◌,
  eqb,
}
use bricktrace.Validators.Url.{truthy}
use bricktrace.Validators.Escape.{text_of}
use bricktrace.Build.Graph.{or_text}

pub record FailedRun : Type 0 where
  pub entity_id : String
  pub result_state : Option String
  pub period_start_time : String

pub record DqViolation : Type 0 where
  pub rule_id : Option String
  pub rule_type : Option String
  pub column : Option String
  pub expression : String
  pub severity : Option String
  pub pass_rate : String
  pub violations : ℕ
  pub sample_size : ℕ

pub data Evidence : Type 0 where
  failed_job_run : FailedRun → Evidence
  dq_violation : DqViolation → Evidence

pub record RunRow : Type 0 where
  pub job_id : Option String
  pub result_state : Option String
  pub period_start_time : Option String

-- str(value)
unfoldable pub str_of : Option String → String
str_of none = "None"
str_of (some s) = s

unfoldable pub runs_of : List RunRow → List Evidence
unfolding str_of or_text
runs_of [] = []
runs_of (r ∷ rows) =
    failed_job_run (record {
      entity_id = str_of r.job_id;
      result_state = r.result_state;
      period_start_time = or_text r.period_start_time "";
    })
    ∷ runs_of rows

unfoldable pub get_failed_runs_around : Option (List RunRow) → List Evidence
unfolding runs_of
get_failed_runs_around none = []
get_failed_runs_around (some rows) = runs_of rows

pub record Rule : Type 0 where
  pub rule_id : Option String
  pub column_name : Option String
  pub rule_type : Option String
  pub expression : Option String
  pub severity : Option String

-- COUNT(*) and SUM(...), which may be NULL, of the first row.
abbrev pub Counts : Type 0
Counts = Option ℕ × Option ℕ

-- int(value or 0)
unfoldable pub count_of : Option ℕ → ℕ
count_of none = 0
count_of (some n) = n

module _ (ratio : ℕ → ℕ → String) where
  -- round((total - violations) / max(total, 1), 4)
  unfoldable pub pass_rate : ℕ → ℕ → String
  pass_rate total violations = ratio (total - violations) (if eqb total 0 then 1 else total)

  unfoldable pub violation : Rule → String → ℕ → ℕ → List Evidence
  unfolding pass_rate
  violation rule expr total violations =
      if eqb violations 0
      then []
      else dq_violation (record {
        rule_id = rule.rule_id;
        rule_type = rule.rule_type;
        column = rule.column_name;
        expression = expr;
        severity = rule.severity;
        pass_rate = pass_rate total violations;
        violations = violations;
        sample_size = total;
      })
        ∷ []

  -- What the sample query comes to: an exception, no row, or its counts.
  unfoldable pub sampled : Rule → String → Option (Option Counts) → List Evidence
  unfolding violation count_of
  sampled rule expr none = []
  sampled rule expr (some none) = []
  sampled rule expr (some (some (total, violations))) =
      violation rule expr (count_of total) (count_of violations)

  module _ (validate_expression : String → Bool) (sample : String → Option (Option Counts)) where
    unfoldable pub rule_evidence : Rule → List Evidence
    unfolding sampled truthy text_of
    rule_evidence rule =
        if truthy rule.expression
        then (if validate_expression (text_of rule.expression)
            then sampled rule (text_of rule.expression) (sample (text_of rule.expression))
            else [])
        else []

    unfoldable pub rules_evidence : List Rule → List Evidence
    unfolding rule_evidence
    rules_evidence [] = []
    rules_evidence (rule ∷ rules) = rule_evidence rule ++ rules_evidence rules

    unfoldable pub get_dq_violations : Option (List Rule) → List Evidence
    unfolding rules_evidence
    get_dq_violations none = []
    get_dq_violations (some rules) = rules_evidence rules
