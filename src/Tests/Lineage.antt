-- ===== src/Tests/Lineage.antt =====
-- Tests and examples of Lineage.
use mathlib.Core.List.{Memᴰ}
use mathlib.Core.List.Memᴰ
use bricktrace.Prelude.{
  ℕ, ◌%◌, eqb, ◌≡◌, ◌≢◌, refl, sym, ◌∙◌, inl, inr, Option, elem, String, true, false, List, [], ◌∷◌,
  none, some, Bool, ◌==◌, ap,
}
use bricktrace.Prelude.Text.{◌⊕◌, split, after_prefix}
use bricktrace.Prelude.Dict
use bricktrace.Prelude.Dict.{Dict, lookup}
use bricktrace.Validators.Url.{truthy}
use bricktrace.Validators.Escape.{text_of}
use bricktrace.Lineage.Refs.{
  parse_lineage_ref, entity_key, display_type, parse_path, without_dbfs, volume_id, storage_id,
  split_scheme,
}
use bricktrace.Lineage.Edges
use bricktrace.Lineage.Edges.{LineageRow, source_ref, target_ref, key_of, edge_set, has_edge, kept}
use bricktrace.Lineage.Service.{get_lineage_trace}
use bricktrace.Lineage.Service.Traces.{
  AllComplete, get_lineage_trace-AllComplete, get_lineage_trace-get_lineage_trace,
}
use bricktrace.Lineage.Edges.Cycles.{no_back_edge, self_read_is_a_loop}

abbrev row : String → String → LineageRow
row s t = record {
  source_table_full_name = some s;
  source_path = none;
  source_type = some "TABLE";
  target_table_full_name = some t;
  target_path = none;
  target_type = some "TABLE";
  entity_type = some "JOB";
  entity_id = some "7";
  workspace_id = none;
}

-- The job writes b from a, reads b back to write c, and updates c in place.
abbrev rows : List LineageRow
rows = row "a" "b" ∷ row "b" "c" ∷ row "c" "c" ∷ []

parsed :
    (parse_lineage_ref none (some "dbfs:/Volumes/c/s/v/x.csv") none ≡ (some "c.s.v", some "VOLUME"))
    × (parse_lineage_ref none (some "s3://bucket/x") none ≡ (some "path:s3://bucket", some "PATH"))
    × (parse_lineage_ref (some "c.s.t") none (some "VIEW") ≡ (some "c.s.t", some "VIEW"))
unfolding parse_lineage_ref display_type parse_path without_dbfs volume_id storage_id split_scheme
    split after_prefix truthy text_of lookup
parsed = (refl, refl, refl)

abbrev is_job : Option String → Bool
is_job none = false
is_job (some s) = s == "entity:JOB:7"

not_job :
    (r q : LineageRow)
    → r ≡ q
    → is_job (source_ref q) ≡ false
    → is_job (target_ref q) ≡ false
    → (source_ref r ≢ some "entity:JOB:7") × (target_ref r ≢ some "entity:JOB:7")
not_job r q e s t = (
  λ h. let wrong : false ≡ true = sym s ∙ ap is_job (ap source_ref (sym e) ∙ h) in cc,
  λ h. let wrong : false ≡ true = sym t ∙ ap is_job (ap target_ref (sym e) ∙ h) in cc,
)

rows_are_tables :
    (r : LineageRow)
    → Memᴰ r rows
    → (source_ref r ≢ some "entity:JOB:7") × (target_ref r ≢ some "entity:JOB:7")
unfolding source_ref target_ref parse_lineage_ref kept truthy text_of
rows_are_tables r i = elim (Memᴰ.cases_cons i) [
  | inl e ↦ not_job r (row "a" "b") e refl refl
  | inr j ↦ elim (Memᴰ.cases_cons j) [
    | inl e ↦ not_job r (row "b" "c") e refl refl
    | inr k ↦ not_job r (row "c" "c") (Memᴰ.eq_of_singleton k) refl refl
  ]
]

no_back_edge_example : has_edge ("b", "entity:JOB:7") (edge_set rows) ≡ false
unfolding edge_set has_edge Edges.collect_edges Edges.add_edges Edges.edges_of_row
    Edges.edges_through Edges.targets_by_entity Edges.add_target Edges.writes lookup Dict.insert
    elem key_of source_ref target_ref parse_lineage_ref kept truthy text_of entity_key ◌⊕◌
no_back_edge_example = no_back_edge rows "entity:JOB:7" "b" rows_are_tables refl

self_read_is_a_loop_example : has_edge ("c", "c") (edge_set rows) ≡ true
unfolding key_of source_ref target_ref parse_lineage_ref kept truthy text_of entity_key ◌⊕◌
self_read_is_a_loop_example =
    self_read_is_a_loop rows (row "c" "c") "entity:JOB:7" "c"
      (Memᴰ.tail (Memᴰ.tail (Memᴰ.head refl))) refl refl refl

-- A graph is a number here, truncated where it is odd.
abbrev is_odd : ℕ → Bool
is_odd n = eqb (n % 2) 1

abbrev any_graph : ℕ → Bool
any_graph n = true

abbrev no_graphs : Dict ℕ
no_graphs = []

none_kept : AllComplete is_odd any_graph no_graphs
unfolding lookup
none_kept = record { complete_at = λ k g e. cc }

get_lineage_trace-AllComplete_example :
    AllComplete is_odd any_graph
      (get_lineage_trace is_odd any_graph "c.s.t" false (some 3) no_graphs).0
get_lineage_trace-AllComplete_example =
    get_lineage_trace-AllComplete is_odd any_graph "c.s.t" false (some 3) no_graphs none_kept

fetched_four :
    (get_lineage_trace is_odd any_graph "c.s.t" false (some 4) no_graphs).1
    ≡ some (record { graph = 4; is_cached = false })
unfolding get_lineage_trace lookup
fetched_four = refl

get_lineage_trace-get_lineage_trace_example :
    (get_lineage_trace is_odd any_graph "c.s.t" false
      (some 3)
      (get_lineage_trace is_odd any_graph "c.s.t" false (some 4) no_graphs).0).1
    ≡ some (record { graph = 4; is_cached = true })
get_lineage_trace-get_lineage_trace_example =
    get_lineage_trace-get_lineage_trace is_odd any_graph "c.s.t" false 4 (some 4) (some 3) no_graphs
      refl fetched_four
