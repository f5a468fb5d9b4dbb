-- ===== src/Sublineage/Graph.antt =====
-- transformation_lineage/sublineage/graph.py. Rows of `lineage_edge_endpoints` come from Spark; a
-- row has the fields of a hop, so the rows are given as hops.
pub mod Laws
pub mod Loaded
use bricktrace.Prelude.{
  String, Bool, ◌==◌, List, [], ◌∷◌, ◌++◌, Option, none, some, elem, length, ℕ, ◌+◌, if◌then◌else◌,
}
use bricktrace.Prelude.Dict.{Dict, lookup, insert}

pub data Direction : Type 0 where
  downstream upstream : Direction

pub record HopRecord : Type 0 where
  pub src_node_id : String
  pub dst_node_id : String
  pub edge_id : Option String
  pub artifact_id : Option String
  pub source_path : Option String
  pub expr : Option String
  pub expr_lang : Option String
  pub expr_sql : Option String
  pub transform_category : Option String
  pub src_fqn : Option String
  pub src_col : Option String
  pub dst_fqn : Option String
  pub dst_col : Option String

-- `nodes` is a set, kept as a list without repetitions.
pub record SublineageGraph : Type 0 where
  pub pipeline_run_id : String
  pub out_adj : Dict (List HopRecord)
  pub in_adj : Dict (List HopRecord)
  pub nodes : List String

-- adj.get(node, [])
unfoldable pub get_adj : String → Dict (List HopRecord) → List HopRecord
get_adj node adj = elim (lookup node adj) [ none ↦ [] | some hops ↦ hops ]

unfoldable pub neighbors : SublineageGraph → String → Direction → List HopRecord
unfolding get_adj
neighbors g node downstream = get_adj node g.out_adj
neighbors g node upstream = get_adj node g.in_adj

unfoldable pub has_node : SublineageGraph → String → Bool
has_node g node = elem node g.nodes

-- The end of a hop that lies ahead when the walk goes in this direction.
unfoldable pub far_end : Direction → HopRecord → String
far_end downstream hop = hop.dst_node_id
far_end upstream hop = hop.src_node_id

-- adj.setdefault(node, []).append(hop)
unfoldable pub append_adj : String → HopRecord → Dict (List HopRecord) → Dict (List HopRecord)
unfolding get_adj
append_adj node hop adj = insert node (get_adj node adj ++ hop ∷ []) adj

-- nodes.add(node)
unfoldable pub add_node : String → List String → List String
add_node node nodes = if elem node nodes then nodes else nodes ++ node ∷ []

unfoldable pub add_hop : SublineageGraph → HopRecord → SublineageGraph
unfolding append_adj add_node
add_hop g hop = record g {
  out_adj = append_adj hop.src_node_id hop g.out_adj;
  in_adj = append_adj hop.dst_node_id hop g.in_adj;
  nodes = add_node hop.dst_node_id (add_node hop.src_node_id g.nodes);
}

unfoldable pub add_hops : SublineageGraph → List HopRecord → SublineageGraph
add_hops g [] = g
add_hops g (hop ∷ rows) = add_hops (add_hop g hop) rows

abbrev pub empty_graph : String → SublineageGraph
empty_graph run = record { pipeline_run_id = run; out_adj = []; in_adj = []; nodes = [] }

unfoldable pub build_graph : String → List HopRecord → SublineageGraph
unfolding add_hops
build_graph run rows = add_hops (empty_graph run) rows

sum_lengths : Dict (List HopRecord) → ℕ
sum_lengths [] = 0
sum_lengths ((node, hops) ∷ adj) = length hops + sum_lengths adj

unfoldable pub edge_count : SublineageGraph → ℕ
unfolding sum_lengths
edge_count g = sum_lengths g.out_adj
