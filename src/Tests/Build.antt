-- ===== src/Tests/Build.antt =====
-- Tests and examples of Build.
use bricktrace.Prelude.{
  ℕ, ◌≤◌, true, false, Option, ◌≡◌, refl, List, [], ◌∷◌, ◌++◌, none, some, length, arith, String,
  elem, map, distinct,
}
use bricktrace.Build.Graph.{
  Mapping, Parse, Built, build_graph_from_parse_results, xfm_id, add_tables, add_table,
  add_mappings, add_mapping, add_sourced, output_node, source_node, output_fqn, col_node_id,
  or_text, or_option, put_node, ids_of, transformation_node, table_node,
}
use bricktrace.Prelude.Dict.{Dict, insert, lookup, keys}
use bricktrace.Build.Versions.{
  VersionRow, Tie, newer, rows_of, group_latest, check_each, differs, skipped, gated_run,
  batch_check_versions, batch_record_versions, is_new_content_version,
}
use bricktrace.Build.Versions.Latest.{
  asked, recorded_apart, times_differ, apart_from, elem-batch_check_versions,
}
use bricktrace.Build.Versions.Gate.{
  rows_before, before, recorded, is_new-batch_record_versions, gated_run-gated_run,
}
use bricktrace.Build.Graph.Closed.{IsClosed, build_graph_from_parse_results-IsClosed}
use bricktrace.Build.Endpoints.{
  NodeRow, EdgeRow, RawRow, EndpointRow, validate_run_id, safe_char, safe_rest, graph_phases,
  extend_all, build_edge_endpoints, delete_run, paths_with, append_nodes, append_edges,
}
use bricktrace.Build.Endpoints.Pins.{no_node_of, no_edge_of, hops, no_loop, hop_of}
use bricktrace.Build.Endpoints.Hops.{graph_phases-hops}
use bricktrace.Build.Endpoints.Rerun.{build_edge_endpoints-build_edge_endpoints}

abbrev digest : String → String
digest s = s

abbrev category : String → String
category s = "other"

abbrev mapping : String → Option String → Mapping
mapping out src = record {
  output_column = some out;
  source_ref = src;
  source_fqn = some "c.s.t";
  source_column = src;
  expr = some "a + 1";
  expr_lang = some "sql";
  mapping_output_fqn = some "c.s.u";
}

-- One column with a source, one constant, and c.s.t read as a table.
abbrev parse : Parse
parse = record {
  artifact_id = "nb1";
  language = some "sql";
  table_references = "c.s.t" ∷ [];
  output_table_fqn = none;
  column_mappings = mapping "x" (some "a") ∷ mapping "y" none ∷ [];
}

built_ids :
    ids_of (build_graph_from_parse_results digest category parse none).nodes
    ≡ "xfm:nb1" ∷ "tbl:c.s.t" ∷ "col:c.s.u::x" ∷ "col:c.s.t::a" ∷ "col:c.s.u::y" ∷ []
unfolding build_graph_from_parse_results add_tables add_table add_mappings add_mapping add_sourced
    output_node source_node output_fqn col_node_id or_text or_option put_node ids_of
    transformation_node table_node xfm_id elem
built_ids = refl

valid_run : validate_run_id "run_1-A" ≡ true
unfolding validate_run_id safe_rest safe_char
valid_run = refl

-- `$` lets a line feed at the end pass.
run_with_line_feed : validate_run_id "run\n" ≡ true
unfolding validate_run_id safe_rest safe_char
run_with_line_feed = refl

run_with_quote : validate_run_id "x' OR 1" ≡ false
unfolding validate_run_id safe_rest safe_char
run_with_quote = refl

build_graph_from_parse_results-IsClosed_example :
    IsClosed
      (xfm_id digest category "nb1")
      (build_graph_from_parse_results digest category parse none)
build_graph_from_parse_results-IsClosed_example =
    build_graph_from_parse_results-IsClosed digest category parse none

abbrev raw : List RawRow
raw = record { pipeline_run_id = "r1"; extraction_id = "nb1"; source_path = some "/nb1" } ∷ []

one_path : (artifact : String) → length (paths_with "r1" artifact raw) ≤ 1
unfolding paths_with
one_path artifact = ground arith

no_nodes : no_node_of "r1" [] ≡ true
unfolding no_node_of
no_nodes = refl

no_edges : no_edge_of "r1" [] ≡ true
unfolding no_edge_of
no_edges = refl

valid_r1 : validate_run_id "r1" ≡ true
unfolding validate_run_id safe_rest safe_char
valid_r1 = refl

graph_phases-hops_example :
    (rows : List EndpointRow) × (graph_phases digest category none "r1"
        (parse ∷ [])
        []
        []
        raw
        "t"
        []
      ≡ some (delete_run "r1" [] ++ rows, length rows))
    × (map hop_of rows
        ≡ hops
            (extend_all digest category none
              (parse ∷ [])
              (record { nodes = []; edges = [] })).edges)
    × (no_loop (map hop_of rows) ≡ true)
graph_phases-hops_example =
    graph_phases-hops digest category none "r1" (parse ∷ []) [] [] raw "t" [] valid_r1 no_nodes
      no_edges one_path

abbrev built : Built
built = build_graph_from_parse_results digest category parse none

abbrev node_rows : List NodeRow
node_rows = append_nodes "r1" built.nodes []

abbrev edge_rows : List EdgeRow
edge_rows = append_edges "r1" built.edges []

build_edge_endpoints-build_edge_endpoints_example :
    (first : List EndpointRow × ℕ) × (build_edge_endpoints "r1" node_rows edge_rows raw "t" []
      ≡ some first)
    × (build_edge_endpoints "r1" node_rows edge_rows raw "u" first.0
        ≡ build_edge_endpoints "r1" node_rows edge_rows raw "u" [])
build_edge_endpoints-build_edge_endpoints_example =
    build_edge_endpoints-build_edge_endpoints "r1" node_rows edge_rows raw "t" "u" [] valid_r1

abbrev version : String → String → ℕ → VersionRow
version id sha now = record {
  pipeline_run_id = "r0";
  extraction_id = id;
  content_sha256 = sha;
  is_new_version = true;
  recorded_at = now;
}

abbrev versions : Option (List VersionRow)
versions = some (version "nb1" "old" 1 ∷ version "nb1" "new" 2 ∷ [])

abbrev hashes : Dict String
hashes = ("nb1", "new") ∷ ("nb2", "first") ∷ []

hash_ids_differ : distinct (keys hashes) ≡ true
unfolding distinct elem
hash_ids_differ = refl

-- Two choices among rows with one timestamp.
abbrev first_row : Tie
first_row r s = false

abbrev last_row : Tie
last_row r s = true

versions_apart : recorded_apart "nb1" versions ≡ true
unfolding recorded_apart rows_of times_differ apart_from
versions_apart = refl

elem-batch_check_versions_example :
    elem "nb1" (batch_check_versions first_row versions hashes)
    ≡ asked last_row versions "nb1" (lookup "nb1" hashes)
elem-batch_check_versions_example =
    elem-batch_check_versions first_row last_row versions hashes "nb1" hash_ids_differ
      versions_apart

-- Where two rows have one timestamp, the two checks may disagree.
ties_disagree :
    (batch_check_versions first_row
        (some (version "nb1" "old" 1 ∷ version "nb1" "new" 1 ∷ []))
        hashes
      ≡ "nb1" ∷ "nb2" ∷ [])
    × (batch_check_versions last_row
          (some (version "nb1" "old" 1 ∷ version "nb1" "new" 1 ∷ []))
          hashes
        ≡ "nb2" ∷ [])
unfolding batch_check_versions group_latest check_each newer differs lookup insert elem
ties_disagree = (refl, refl)

versions_earlier : before 3 versions ≡ true
unfolding before rows_before
versions_earlier = refl

is_new-batch_record_versions_example :
    is_new_content_version last_row (batch_record_versions versions "r1" hashes [] 3) "nb2" "second"
    ≡ recorded
        (is_new_content_version last_row versions "nb2" "second")
        (lookup "nb2" hashes)
        "second"
is_new-batch_record_versions_example =
    is_new-batch_record_versions last_row versions "r1" hashes [] 3 "nb2" "second" hash_ids_differ
      versions_earlier

-- Every parse raises in the first run.
gated_run-gated_run_example :
    (gated_run digest
      (λ a. false)
      last_row
      false
      "r2"
      4
      (record { extraction_id = "nb1"; raw_source = "select" } ∷ [])
      (gated_run digest
        (λ a. true)
        first_row
        false
        "r1"
        3
        (record { extraction_id = "nb1"; raw_source = "select" } ∷ [])
        versions).0).1
    ≡ skipped
gated_run-gated_run_example =
    gated_run-gated_run first_row last_row digest (λ a. true) (λ a. false) false "r1" "r2" 3 4
      (record { extraction_id = "nb1"; raw_source = "select" } ∷ []) versions versions_earlier
