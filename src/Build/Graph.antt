-- ===== src/Build/Graph.antt =====
-- transformation_lineage/parsing/graph_builder.py: the nodes and edges of one parsed artifact. A meta
-- text is the value that it is the JSON of. The digest is SHA-256 in hexadecimal digits, and
-- regular expressions are parameters, given by their pattern, with the flags that the source sets.
pub mod Closed
use bricktrace.Prelude.{
  ℕ, String, Bool, true, false, ◌==◌, ◌||◌, not, if◌then◌else◌, List, [], ◌∷◌, ◌++◌, Option, none,
  some, Char, elem,
}
use bricktrace.Prelude.Text.{◌⊕◌, take, split}
use bricktrace.Warehouse.Tag.{lstrip, rstrip}
use bricktrace.Validators.Url.{truthy}
use bricktrace.Validators.Escape.{text_of}

pub data NodeMeta : Type 0 where
  no_meta : NodeMeta
  language_meta : Option String → NodeMeta
  -- expr, transform_category, expr_lang
  column_meta : String → String → String → NodeMeta
  -- source_ref
  source_meta : String → NodeMeta

pub record LineageNodeRecord : Type 0 where
  pub node_id : String
  pub node_type : String
  pub label : String
  pub table_fqn : Option String
  pub column_name : Option String
  pub artifact_id : String
  pub node_meta : NodeMeta

pub record DeriveMeta : Type 0 where
  pub source_ref : String
  pub pinned : Option String
  pub transform_category : String
  pub expr : String
  pub expr_lang : String

pub data EdgeMeta : Type 0 where
  read_meta : EdgeMeta
  derive_meta : DeriveMeta → EdgeMeta

pub record LineageEdgeRecord : Type 0 where
  pub edge_id : String
  pub src_id : String
  pub dst_id : String
  pub edge_type : String
  pub artifact_id : String
  pub edge_meta : EdgeMeta

pub record Mapping : Type 0 where
  pub output_column : Option String
  pub source_ref : Option String
  pub source_fqn : Option String
  pub source_column : Option String
  pub expr : Option String
  pub expr_lang : Option String
  pub mapping_output_fqn : Option String

pub record Parse : Type 0 where
  pub artifact_id : String
  pub language : Option String
  pub table_references : List String
  pub output_table_fqn : Option String
  pub column_mappings : List Mapping

-- value or default
unfoldable pub or_text : Option String → String → String
unfolding truthy text_of
or_text value default = if truthy value then text_of value else default

unfoldable pub or_option : Option String → Option String → Option String
unfolding truthy
or_option value default = if truthy value then value else default

-- _col_node_id
unfoldable pub col_node_id : Option String → String → String → String → String
unfolding truthy text_of ◌⊕◌
col_node_id table_fqn column artifact_id fallback_tag =
    if truthy table_fqn
    then (if column == ""
        then "col:" ⊕ fallback_tag ⊕ ":" ⊕ artifact_id ⊕ ":unknown"
        else "col:" ⊕ text_of table_fqn ⊕ "::" ⊕ column)
    else "col:"
      ⊕ fallback_tag
      ⊕ ":"
      ⊕ artifact_id
      ⊕ ":"
      ⊕ (if column == "" then "unknown" else column)

unfoldable pub ids_of : List LineageNodeRecord → List String
ids_of [] = []
ids_of (n ∷ ns) = n.node_id ∷ ids_of ns

-- if n.node_id not in nodes: nodes[n.node_id] = n
unfoldable pub put_node : LineageNodeRecord → List LineageNodeRecord → List LineageNodeRecord
unfolding ids_of elem
put_node n nodes = if elem n.node_id (ids_of nodes) then nodes else nodes ++ n ∷ []

pub record Built : Type 0 where
  pub nodes : List LineageNodeRecord
  pub edges : List LineageEdgeRecord

abbrev pub word : String
word =
    "\\b(?:sum|avg|mean|count|min|max|stddev(?:_pop|_samp)?|variance|var_pop|var_samp|collect_list|collect_set|first|last|approx_count_distinct|percentile(?:_approx)?)\\s*\\("

abbrev pub category_patterns : List (String × String)
category_patterns =
    ("\\bover\\s*\\(", "window")
    ∷ ("\\.over\\(\\s*Window", "window")
    ∷ (word, "aggregation")
    ∷ ("\\bcase\\s+when\\b", "case")
    ∷ ("\\b(?:iff|if|when)\\s*\\(", "case")
    ∷ ("\\b(?:coalesce|ifnull|nvl|nullif)\\s*\\(", "null_handling")
    ∷ ("\\bcast\\s*\\(", "cast")
    ∷ ("::\\s*[\\w()]+", "cast")
    ∷ ("\\.cast\\(", "cast")
    ∷ (
      "\\b(?:concat(?:_ws)?|substr(?:ing)?|upper|lower|trim|ltrim|rtrim|replace|regexp_replace|regexp_extract|split|lpad|rpad|initcap|length)\\s*\\(",
      "string_fn",
    )
    ∷ (
      "\\b(?:date_trunc|date_add|date_sub|datediff|to_date|to_timestamp|current_date|current_timestamp|year|month|dayofmonth|dayofweek|hour|minute|second|unix_timestamp|from_unixtime)\\s*\\(",
      "date_fn",
    )
    ∷ ("[+\\-*/%]", "arithmetic")
    ∷ []

module _ (is_space : Char → Bool) (search : String → String → Bool)
    (fullmatch : String → String → Bool) (sub : String → String → String) where
  unfoldable pub strip : String → String
  strip s = rstrip is_space (lstrip is_space s)

  -- The last line that is not blank, or the whole text.
  unfoldable pub last_line : String → List String → String
  unfolding strip
  last_line found [] = found
  last_line found (ln ∷ lines) = last_line (if strip ln == "" then found else ln) lines

  unfoldable pub first_match : String → List (String × String) → String
  first_match text [] = "other"
  first_match text ((pattern, category) ∷ rest) =
      let later = first_match text rest in if search pattern text then category else later

  -- _classify_transform
  unfoldable pub classify_transform : String → String
  unfolding strip last_line first_match split
  classify_transform expr =
      let primary = sub "^\\s*Step\\s+\\d+:\\s*[\\w.]+\\s*=\\s*" (last_line expr (split 10 expr)) in
      let stripped = strip primary in
      if expr == ""
      then "unknown"
      else if fullmatch "[\\w.\"'` ]+" stripped
          || fullmatch "(?:col|F\\.col)\\(\\s*[\"'][\\w]+[\"']\\s*\\)" stripped
      then "projection"
      else first_match primary category_patterns

-- "|".join(parts)
unfoldable pub join_parts : List String → String
unfolding ◌⊕◌
join_parts [] = ""
join_parts (s ∷ []) = s
join_parts (s ∷ t ∷ rest) = s ⊕ "|" ⊕ join_parts (t ∷ rest)

module _ (sha256 : String → String) (classify : String → String) where
  -- f"e_{_eid(*parts)}"
  unfoldable pub eid : List String → String
  unfolding join_parts ◌⊕◌
  eid parts = "e_" ⊕ take 16 (sha256 (join_parts parts))

  unfoldable pub xfm_id : String → String
  unfolding ◌⊕◌
  xfm_id artifact_id = "xfm:" ⊕ artifact_id

  unfoldable pub transformation_node : Parse → LineageNodeRecord
  unfolding xfm_id ◌⊕◌
  transformation_node p = record {
    node_id = xfm_id p.artifact_id;
    node_type = "transformation";
    label = "artifact " ⊕ p.artifact_id;
    table_fqn = none;
    column_name = none;
    artifact_id = p.artifact_id;
    node_meta = language_meta p.language;
  }

  unfoldable pub table_node : String → String → LineageNodeRecord
  unfolding ◌⊕◌
  table_node artifact tbl = record {
    node_id = "tbl:" ⊕ tbl;
    node_type = "table";
    label = tbl;
    table_fqn = some tbl;
    column_name = none;
    artifact_id = artifact;
    node_meta = no_meta;
  }

  unfoldable pub read_edge : String → String → String → String → LineageEdgeRecord
  unfolding eid xfm_id
  read_edge kind artifact key src = record {
    edge_id = eid (kind ∷ artifact ∷ key ∷ []);
    src_id = src;
    dst_id = xfm_id artifact;
    edge_type = "read";
    artifact_id = artifact;
    edge_meta = read_meta;
  }

  unfoldable pub add_table : String → Built → String → Built
  unfolding put_node table_node read_edge
  add_table artifact b tbl = record {
    nodes = put_node (table_node artifact tbl) b.nodes;
    edges = b.edges ++ read_edge "read" artifact tbl (table_node artifact tbl).node_id ∷ [];
  }

  unfoldable pub add_tables : String → List String → Built → Built
  unfolding add_table
  add_tables artifact [] b = b
  add_tables artifact (tbl ∷ tbls) b = add_tables artifact tbls (add_table artifact b tbl)

  module _ (p : Parse) (default_table_fqn : Option String) where
    unfoldable pub output_fqn : Mapping → Option String
    unfolding or_option
    output_fqn m = or_option m.mapping_output_fqn (or_option p.output_table_fqn default_table_fqn)

    unfoldable pub output_node : Mapping → LineageNodeRecord
    unfolding or_text col_node_id output_fqn
    output_node m =
        let out = or_text m.output_column "unknown" in
        let expr = or_text m.expr "" in
        record {
          node_id = col_node_id (output_fqn m) out p.artifact_id "out";
          node_type = "column";
          label = out;
          table_fqn = output_fqn m;
          column_name = some out;
          artifact_id = p.artifact_id;
          node_meta = column_meta expr (classify expr) (or_text m.expr_lang "unknown");
        }

    unfoldable pub source_node : Mapping → LineageNodeRecord
    unfolding or_text col_node_id
    source_node m =
        let col = or_text m.source_column "" in
        let ref = or_text m.source_ref "" in
        record {
          node_id = col_node_id m.source_fqn col p.artifact_id "unresolved";
          node_type = "column";
          label = col;
          table_fqn = m.source_fqn;
          column_name = some col;
          artifact_id = p.artifact_id;
          node_meta = if ref == "" then no_meta else source_meta ref;
        }

    -- The edge from the artifact to the output column, with the source node that it comes from.
    unfoldable pub derive_edge : Mapping → Option String → LineageEdgeRecord
    unfolding eid xfm_id or_text output_node text_of
    derive_edge m src = record {
      edge_id = eid (
          "derive"
          ∷ p.artifact_id
          ∷ or_text m.output_column "unknown"
          ∷ or_text m.source_ref ""
          ∷ text_of src
          ∷ []);
      src_id = xfm_id p.artifact_id;
      dst_id = (output_node m).node_id;
      edge_type = "derive";
      artifact_id = p.artifact_id;
      edge_meta = derive_meta (record {
        source_ref = or_text m.source_ref "";
        pinned = src;
        transform_category = classify (or_text m.expr "");
        expr = or_text m.expr "";
        expr_lang = or_text m.expr_lang "unknown";
      });
    }

    -- A mapping with a source column; one that maps a column to itself adds no edge.
    unfoldable pub add_sourced : Built → Mapping → Built
    unfolding put_node output_node source_node read_edge derive_edge
    add_sourced b m =
        let nodes = put_node (output_node m) b.nodes in
        let src = (source_node m).node_id in
        if src == (output_node m).node_id then record b { nodes = nodes } else record {
          nodes = put_node (source_node m) nodes;
          edges =
              b.edges ++ read_edge "col_read" p.artifact_id src src ∷ derive_edge m (some src) ∷ [];
        }

    unfoldable pub add_mapping : Built → Mapping → Built
    unfolding add_sourced put_node output_node derive_edge truthy
    add_mapping b m = if truthy m.source_column then add_sourced b m else record {
      nodes = put_node (output_node m) b.nodes;
      edges = b.edges ++ derive_edge m none ∷ [];
    }

    unfoldable pub add_mappings : List Mapping → Built → Built
    unfolding add_mapping
    add_mappings [] b = b
    add_mappings (m ∷ ms) b = add_mappings ms (add_mapping b m)

    unfoldable pub build_graph_from_parse_results : Built
    unfolding add_tables add_mappings transformation_node
    build_graph_from_parse_results = add_mappings p.column_mappings (
        add_tables p.artifact_id p.table_references
          (record { nodes = transformation_node p ∷ []; edges = [] }))
