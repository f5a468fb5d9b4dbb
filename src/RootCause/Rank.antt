-- ===== src/RootCause/Rank.antt =====
-- backend/server/root_cause.py, `trace_root_cause`. A score is a number of ten-thousandths; how Python
-- rounds the sum for a hop, the presence of failed runs and the weight of violations is a parameter.
pub mod Laws
use bricktrace.Prelude.{
  ℕ, ◌==◌, ◌||◌, ◌&&◌, Bool, true, false, String, List, [], ◌∷◌, ◌++◌, Option, none, some, elem,
  take, if◌then◌else◌, ltb, leb, eqb,
}
use mathlib.Core.Option.{map}
use bricktrace.Prelude.Text.{◌⊕◌}
use bricktrace.Prelude.Dict.{Dict, lookup, insert, known}
use bricktrace.Prelude.Sort.{sort_by}
use bricktrace.RootCause.Columns.{UpstreamColumn, SourceRow, walk_upstream_columns}
use bricktrace.RootCause.Evidence.{Evidence, failed_job_run, dq_violation}

pub record Candidate : Type 0 where
  pub table : String
  pub column : String
  pub hop : ℕ
  pub score : ℕ
  pub evidence : List Evidence

pub record Trace : Type 0 where
  pub target_table : String
  pub target_column : String
  pub anomaly_timestamp : Option String
  pub candidates : List Candidate
  pub detail : Option String

-- No violation, violations, or one of severity ERROR: 0.0, 0.3, 0.4.
pub data DqWeight : Type 0 where
  no_violation violated violated_error : DqWeight

unfoldable pub column_key : String → String → String
unfolding ◌⊕◌
column_key table column = table ⊕ "::" ⊕ column

unfoldable pub is_error : Option String → Bool
is_error none = false
is_error (some severity) = severity == "ERROR"

unfoldable pub any_error : List Evidence → Bool
unfolding is_error
any_error [] = false
any_error (failed_job_run r ∷ es) = any_error es
any_error (dq_violation v ∷ es) = is_error v.severity || any_error es

unfoldable pub dq_weight : List Evidence → DqWeight
unfolding any_error
dq_weight [] = no_violation
dq_weight (e ∷ es) = if any_error (e ∷ es) then violated_error else violated

unfoldable pub has_any : List Evidence → Bool
has_any [] = false
has_any (e ∷ es) = true

unfoldable pub evidence_at : String → Dict (List Evidence) → List Evidence
unfolding lookup
evidence_at key d = elim (lookup key d) [ none ↦ [] | some es ↦ es ]

-- The order of the candidates: the higher score, then the fewer hops.
unfoldable pub ranks_before : Candidate → Candidate → Bool
ranks_before c d = ltb d.score c.score || (eqb c.score d.score && leb c.hop d.hop)

module _ (failed_runs : String → List Evidence) (dq_violations : String → String → List Evidence)
    (rounded : ℕ → Bool → DqWeight → ℕ) where
  -- Step 3: the violations for the first item of each key.
  unfoldable pub dq_evidence : List UpstreamColumn → Dict (List Evidence) → Dict (List Evidence)
  unfolding column_key insert known
  dq_evidence [] d = d
  dq_evidence (u ∷ us) d = dq_evidence us (
      if known d (column_key u.table u.column)
      then d
      else insert (column_key u.table u.column) (dq_violations u.table u.column) d)

  unfoldable pub candidate : Dict (List Evidence) → UpstreamColumn → Candidate
  unfolding evidence_at column_key dq_weight has_any
  candidate dq u =
      let run_ev = failed_runs u.table in
      let dq_ev = evidence_at (column_key u.table u.column) dq in
      let score = rounded u.hop (has_any run_ev) (dq_weight dq_ev) in
      record {
        table = u.table;
        column = u.column;
        hop = u.hop;
        score = if leb score 10000 then score else 10000;
        evidence = run_ev ++ dq_ev;
      }

  -- Step 4: a candidate for the first item of each key.
  unfoldable pub candidates_of :
      Dict (List Evidence) → List String → List UpstreamColumn → List Candidate
  unfolding candidate column_key elem
  candidates_of dq seen [] = []
  candidates_of dq seen (u ∷ us) =
      let again = elem (column_key u.table u.column) seen in
      let rest = candidates_of dq (if again then seen else column_key u.table u.column ∷ seen) us in
      if again then rest else candidate dq u ∷ rest

  unfoldable pub ranked : List UpstreamColumn → List Candidate
  unfolding candidates_of dq_evidence sort_by ranks_before
  ranked upstream =
      take 20 (sort_by ranks_before (candidates_of (dq_evidence upstream []) [] upstream))

  unfoldable pub trace_of : String → String → Option String → List UpstreamColumn → Trace
  unfolding ranked
  trace_of full_name column anomaly [] = record {
    target_table = full_name;
    target_column = column;
    anomaly_timestamp = anomaly;
    candidates = [];
    detail = some "No upstream columns found; this may be a root/source column.";
  }
  trace_of full_name column anomaly (u ∷ us) = record {
    target_table = full_name;
    target_column = column;
    anomaly_timestamp = anomaly;
    candidates = ranked (u ∷ us);
    detail = none;
  }

  -- `_walk_upstream_columns` catches what its queries raise, so no error comes out of it.
  unfoldable pub trace_root_cause :
      (String → String → Option (List SourceRow))
      → String
      → String
      → String
      → String
      → Option String
      → ℕ
      → Option Trace
  unfolding trace_of walk_upstream_columns ◌⊕◌
  trace_root_cause query catalog schema table column anomaly max_hops =
      let full_name = catalog ⊕ "." ⊕ schema ⊕ "." ⊕ table in
      map (trace_of full_name column anomaly)
        (walk_upstream_columns query max_hops full_name column)
