-- ===== src/Build/Endpoints.antt =====
-- transformation_lineage/sublineage/edge_endpoints_builder.py, with the phases of transformation_lineage/pipeline.py
-- that feed it and `write_graph_records` of transformation_lineage/storage/writers.py. A table is the
-- list of its rows. The timestamps are arguments, as texts.
pub mod Dedupe
pub mod Rerun
pub mod Pins
pub mod Hops
use bricktrace.Prelude.{
  ℕ, suc, ◌==◌, ◌||◌, ◌&&◌, Bool, true, false, String, Char, code, List, [], ◌∷◌, ◌++◌, Option,
  none, some, elem, length, map, if◌then◌else◌, eqb, leb,
}
use mathlib.Core.List.{flat_map, reverse}
use bricktrace.Prelude.Text.{like_prefix}
use bricktrace.Build.Graph.{
  LineageNodeRecord, LineageEdgeRecord, EdgeMeta, read_meta, derive_meta, DeriveMeta, Parse, Built,
  build_graph_from_parse_results,
}

-- The rows of the three tables that the statement joins, each with its pipeline_run_id.
pub record NodeRow : Type 0 where
  pub pipeline_run_id : String
  pub node : LineageNodeRecord

pub record EdgeRow : Type 0 where
  pub pipeline_run_id : String
  pub edge : LineageEdgeRecord

pub record RawRow : Type 0 where
  pub pipeline_run_id : String
  pub extraction_id : String
  pub source_path : Option String

pub record EndpointRow : Type 0 where
  pub pipeline_run_id : String
  pub src_node_id : String
  pub src_fqn : Option String
  pub src_col : Option String
  pub dst_node_id : String
  pub dst_fqn : Option String
  pub dst_col : Option String
  pub edge_id : String
  pub artifact_id : String
  pub source_path : Option String
  pub expr : String
  pub expr_lang : String
  pub expr_sql : Option String
  pub transform_category : String
  pub materialized_at : String

-- A character of [a-zA-Z0-9_\-].
unfoldable pub safe_char : Char → Bool
safe_char c =
    (leb b'a' (code c) && leb (code c) b'z')
    || (leb b'A' (code c) && leb (code c) b'Z')
    || (leb b'0' (code c) && leb (code c) b'9')
    || eqb (code c) b'_'
    || eqb (code c) b'-'

-- What stands before `$`: it also matches before a line feed at the very end.
unfoldable pub safe_rest : String → Bool
unfolding safe_char
safe_rest String.[] = true
safe_rest (String.◌∷◌ c String.[]) = safe_char c || eqb (code c) 10
safe_rest (String.◌∷◌ c (String.◌∷◌ d s)) = safe_char c && safe_rest (String.◌∷◌ d s)

-- _validate_run_id; `false` stands for the ValueError.
unfoldable pub validate_run_id : String → Bool
unfolding safe_char safe_rest
validate_run_id String.[] = false
validate_run_id (String.◌∷◌ c s) = safe_char c && safe_rest s

-- DELETE FROM endpoints WHERE pipeline_run_id = run
unfoldable pub delete_run : String → List EndpointRow → List EndpointRow
delete_run run [] = []
delete_run run (r ∷ rows) =
    let rest = delete_run run rows in if r.pipeline_run_id == run then rest else r ∷ rest

-- The nodes that a join on pipeline_run_id and node_id finds.
unfoldable pub nodes_with : String → String → List NodeRow → List LineageNodeRecord
nodes_with run id [] = []
nodes_with run id (r ∷ rows) =
    let rest = nodes_with run id rows in
    if r.pipeline_run_id == run && r.node.node_id == id then r.node ∷ rest else rest

unfoldable pub paths_with : String → String → List RawRow → List (Option String)
paths_with run id [] = []
paths_with run id (r ∷ rows) =
    let rest = paths_with run id rows in
    if r.pipeline_run_id == run && r.extraction_id == id then r.source_path ∷ rest else rest

-- LEFT JOIN: a NULL path where nothing matches.
unfoldable pub left_join : List (Option String) → List (Option String)
left_join [] = none ∷ []
left_join (path ∷ paths) = path ∷ paths

module _ (run : String) (nodes_table : List NodeRow) (raw_code_table : List RawRow)
    (now : String) where
  unfoldable pub endpoint :
      LineageEdgeRecord
      → DeriveMeta
      → LineageNodeRecord
      → LineageNodeRecord
      → Option String
      → EndpointRow
  endpoint e d src dst path = record {
    pipeline_run_id = run;
    src_node_id = src.node_id;
    src_fqn = src.table_fqn;
    src_col = src.column_name;
    dst_node_id = e.dst_id;
    dst_fqn = dst.table_fqn;
    dst_col = dst.column_name;
    edge_id = e.edge_id;
    artifact_id = e.artifact_id;
    source_path = path;
    expr = d.expr;
    expr_lang = d.expr_lang;
    expr_sql = if d.expr_lang == "sql" then some d.expr else none;
    transform_category = d.transform_category;
    materialized_at = now;
  }

  unfoldable pub pinned_rows : LineageEdgeRecord → DeriveMeta → Option String → List EndpointRow
  unfolding endpoint nodes_with paths_with left_join flat_map
  pinned_rows e d none = []
  pinned_rows e d (some pin) =
      flat_map
        (λ src.
          flat_map
            (λ dst.
              map (endpoint e d src dst) (left_join (paths_with run e.artifact_id raw_code_table)))
            (nodes_with run e.dst_id nodes_table))
        (nodes_with run pin nodes_table)

  unfoldable pub meta_rows : LineageEdgeRecord → EdgeMeta → List EndpointRow
  unfolding pinned_rows
  meta_rows e read_meta = []
  meta_rows e (derive_meta d) = pinned_rows e d d.pinned

  -- What the WHERE asks of a row of the edges besides the pin.
  unfoldable pub selected : EdgeRow → Bool
  unfolding like_prefix
  selected r =
      r.pipeline_run_id == run
      && r.edge.edge_type == "derive"
      && like_prefix "xfm:" r.edge.src_id
      && like_prefix "col:" r.edge.dst_id

  -- The SELECT of the statement, edge by edge.
  unfoldable pub select_endpoints : List EdgeRow → List EndpointRow
  unfolding meta_rows selected
  select_endpoints [] = []
  select_endpoints (r ∷ rows) =
      (if selected r then meta_rows r.edge r.edge.edge_meta else []) ++ select_endpoints rows

unfoldable pub count_run : String → List EndpointRow → ℕ
count_run run [] = 0
count_run run (r ∷ rows) =
    let rest = count_run run rows in if r.pipeline_run_id == run then suc rest else rest

-- The endpoints table afterwards and the count that is returned; `none` where it raises.
unfoldable pub build_edge_endpoints :
    String
    → List NodeRow
    → List EdgeRow
    → List RawRow
    → String
    → List EndpointRow
    → Option (List EndpointRow × ℕ)
unfolding validate_run_id delete_run select_endpoints count_run
build_edge_endpoints run nodes_table edges_table raw_code_table now endpoints_table =
    let written =
      delete_run run endpoints_table
      ++ select_endpoints run nodes_table raw_code_table now edges_table in
    if validate_run_id run then some (written, count_run run written) else none

-- Phase 4 of the pipeline: of the nodes with one id the last is kept.
unfoldable pub dedupe_loop : List String → List LineageNodeRecord → List LineageNodeRecord
unfolding elem
dedupe_loop seen [] = []
dedupe_loop seen (n ∷ ns) =
    let seen_before = elem n.node_id seen in
    let rest = dedupe_loop (if seen_before then seen else n.node_id ∷ seen) ns in
    if seen_before then rest else n ∷ rest

unfoldable pub dedupe : List LineageNodeRecord → List LineageNodeRecord
unfolding dedupe_loop
dedupe all_nodes = reverse (dedupe_loop [] (reverse all_nodes))

-- write_graph_records
unfoldable pub append_nodes : String → List LineageNodeRecord → List NodeRow → List NodeRow
append_nodes run nodes table = table ++ map (λ n. record { pipeline_run_id = run; node = n }) nodes

unfoldable pub append_edges : String → List LineageEdgeRecord → List EdgeRow → List EdgeRow
append_edges run edges table = table ++ map (λ e. record { pipeline_run_id = run; edge = e }) edges

module _ (sha256 : String → String) (classify : String → String) (default_tbl : Option String) where
  -- all_nodes and all_edges after the futures have completed in this order
  unfoldable pub extend_all : List Parse → Built → Built
  unfolding build_graph_from_parse_results
  extend_all [] b = b
  extend_all (p ∷ ps) b =
      let built = build_graph_from_parse_results sha256 classify p default_tbl in
      extend_all ps (record { nodes = b.nodes ++ built.nodes; edges = b.edges ++ built.edges })

  -- Phases 3, 4 and 7 of run_daily_pipeline for parsed artifacts.
  unfoldable pub graph_phases :
      String
      → List Parse
      → List NodeRow
      → List EdgeRow
      → List RawRow
      → String
      → List EndpointRow
      → Option (List EndpointRow × ℕ)
  unfolding extend_all dedupe append_nodes append_edges build_edge_endpoints
  graph_phases run parses nodes_table edges_table raw_code_table now endpoints_table =
      let all = extend_all parses (record { nodes = []; edges = [] }) in
      build_edge_endpoints run (append_nodes run (dedupe all.nodes) nodes_table)
        (append_edges run all.edges edges_table) raw_code_table now endpoints_table
