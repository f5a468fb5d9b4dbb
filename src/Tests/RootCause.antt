-- ===== src/Tests/RootCause.antt =====
-- Tests and examples of RootCause.
use mathlib.Core.List.{Memᴰ}
use bricktrace.Prelude.{
  ℕ, ◌≤◌, Bool, true, false, Option, ◌==◌, ◌≡◌, refl, List, [], ◌∷◌, none, some, length, arith,
  String,
}
use bricktrace.Prelude.{if◌then◌else◌, ◌-◌, Bool-cases, inl, inr}
use bricktrace.Prelude.Text.{◌⊕◌, split, onto_first}
use bricktrace.Prelude.Sort.{sorted_by, sort_by, insert_by}
use bricktrace.RootCause.Columns.{
  SourceRow, walk_upstream_columns, walk, round, take_first, path_of, fetched, sources_of,
  was_visited, cost,
}
use bricktrace.RootCause.Columns.Ends.{IsLimited}
use bricktrace.RootCause.Evidence.{Evidence, Rule, Counts, get_dq_violations}
use bricktrace.RootCause.Evidence.Validated.{get_dq_violations-agree}
use bricktrace.RootCause.Rank.{Trace, DqWeight, ranks_before, trace_root_cause}
use bricktrace.RootCause.Rank.Laws.{AllUpstream, trace_root_cause-ranked}
use bricktrace.RootCause.Tables.{
  Status, failed, healthy, Health, Flagged, trace_root_cause_table, flags_before, is_bad, flag_all,
  flag, worst_of, short_of, last_two, status_rank,
}
use bricktrace.RootCause.Tables.Suspect.{prime_suspect_is_worst}

-- c.s.a comes from c.s.b, and that from c.s.a.
abbrev column_rows : String → String → Option (List SourceRow)
column_rows table column =
    if table == "c.s.a" then some ((some "c.s.b", some "x") ∷ (none, some "y") ∷ []) else none

walked :
    walk_upstream_columns column_rows 1 "c.s.a" "x"
    ≡ some (record { table = "c.s.b"; column = "x"; hop = 1 } ∷ [])
unfolding walk_upstream_columns walk round take_first path_of fetched sources_of was_visited cost
walked = refl

column_rows-IsLimited : (t c : String) → IsLimited (column_rows t c)
column_rows-IsLimited t c = elim (Bool-cases (t == "c.s.a")) [
  | inl e ↦ rw e (omega arith)
  | inr e ↦ rw e tt
]

abbrev no_evidence : String → List Evidence
no_evidence table = []

abbrev no_violations : String → String → List Evidence
no_violations table column = []

abbrev by_hop : ℕ → Bool → DqWeight → ℕ
by_hop hop failed_runs weight = 10000 - hop

trace_root_cause-ranked_example :
    (trace : Trace) × (trace_root_cause no_evidence no_violations by_hop column_rows "c" "s" "a" "x"
        none 6
      ≡ some trace)
    × (sorted_by ranks_before trace.candidates ≡ true)
    × (length trace.candidates ≤ 20)
    × AllUpstream column_rows ("c" ⊕ "." ⊕ "s" ⊕ "." ⊕ "a") "x" 6 trace.candidates
trace_root_cause-ranked_example =
    trace_root_cause-ranked no_evidence no_violations by_hop column_rows "c" "s" "a" "x" none 6
      column_rows-IsLimited

abbrev rule : Rule
rule = record {
  rule_id = some "1";
  column_name = some "x";
  rule_type = some "REGEX";
  expression = some "x > 0";
  severity = some "ERROR";
}

abbrev only_positive : String → Bool
only_positive expr = expr == "x > 0"

abbrev counts : String → Option (Option Counts)
counts expr = some (some (some 10, some 2))

abbrev counts_or_error : String → Option (Option Counts)
counts_or_error expr = if expr == "x > 0" then some (some (some 10, some 2)) else none

counts_agree : (expr : String) → only_positive expr ≡ true → counts expr ≡ counts_or_error expr
counts_agree expr h = rw h refl

abbrev percent : ℕ → ℕ → String
percent part whole = "0.8"

get_dq_violations-agree_example :
    get_dq_violations percent only_positive counts (some (rule ∷ []))
    ≡ get_dq_violations percent only_positive counts_or_error (some (rule ∷ []))
get_dq_violations-agree_example =
    get_dq_violations-agree percent only_positive counts counts_or_error counts_agree
      (some (rule ∷ []))

abbrev health : Status → Health
health s = record {
  entity_type = "JOB";
  entity_id = "1";
  status = s;
  last_result = none;
  last_run_at = none;
  success_rate = none;
}

abbrev healths : String → List Health
healths table =
    if table == "c.s.b" then health healthy ∷ health failed ∷ [] else health healthy ∷ []

abbrev suspect : Flagged
suspect = record {
  table = "c.s.b";
  short_name = "s.b";
  hop = 1;
  is_focus = false;
  status = failed;
  producers = health healthy ∷ health failed ∷ [];
}

suspect_is_flagged :
    Memᴰ suspect (trace_root_cause_table "c.s.a" healths (("c.s.b", 1) ∷ [])).flagged
unfolding trace_root_cause_table short_of last_two split onto_first ◌⊕◌ flag_all flag worst_of
    sort_by insert_by flags_before status_rank
suspect_is_flagged = Memᴰ.head refl

suspect_is_bad : is_bad suspect.status ≡ true
unfolding is_bad
suspect_is_bad = refl

prime_suspect_is_worst_example :
    (p : Flagged) × ((trace_root_cause_table "c.s.a" healths (("c.s.b", 1) ∷ [])).prime_suspect
      ≡ some p)
    × Memᴰ p (trace_root_cause_table "c.s.a" healths (("c.s.b", 1) ∷ [])).flagged
    × (is_bad p.status ≡ true)
    × (p.is_focus ≡ false)
    × (flags_before p suspect ≡ true)
prime_suspect_is_worst_example =
    prime_suspect_is_worst "c.s.a" healths (("c.s.b", 1) ∷ []) suspect suspect_is_flagged
      suspect_is_bad refl
