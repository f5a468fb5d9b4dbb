-- ===== src/Sublineage/Backtrack.antt =====
-- transformation_lineage/sublineage/backtrack.py and backtrack_types.py: the upstream walk from a
-- column, level by level. Sets are lists without repetitions; `order` is the order in which a loop
-- visits a set. `str.lower` and the regular expressions of the caller are parameters.
pub mod Sweep
pub mod Levels
pub mod Complete
use mathlib.Core.Option
use bricktrace.Prelude.{
  ℕ, zero, suc, ◌+◌, ltb, String, Bool, true, false, ◌||◌, not, ◌==◌, eqb, code, if◌then◌else◌,
  List, [], ◌∷◌, ◌++◌, Option, none, some, elem, length, map,
}
use bricktrace.Prelude.Text.{◌⊕◌, split, after_prefix}
use bricktrace.Sublineage.Graph.{
  HopRecord, SublineageGraph, Direction, upstream, neighbors, has_node, add_node,
}

pub record BacktrackNode : Type 0 where
  pub node_id : String
  pub table_fqn : Option String
  pub column_name : Option String
  pub depth : ℕ
  pub is_target : Bool
  pub is_source : Bool

pub record BacktrackEdge : Type 0 where
  pub src_node_id : String
  pub dst_node_id : String
  pub edge_id : Option String
  pub artifact_id : Option String
  pub source_path : Option String
  pub expr : Option String
  pub transform_category : Option String
  pub src_fqn : Option String
  pub src_col : Option String
  pub dst_fqn : Option String
  pub dst_col : Option String

pub record BacktrackLevel : Type 0 where
  pub depth : ℕ
  pub columns : List BacktrackNode
  pub transformations : List BacktrackEdge

pub record BacktrackResult : Type 0 where
  pub target_node_id : String
  pub target_fqn : Option String
  pub target_column : Option String
  pub levels : List BacktrackLevel
  pub total_nodes : ℕ
  pub total_edges : ℕ
  pub max_depth_reached : ℕ
  pub pipeline_run_id : String
  pub version_hash : Option String

-- The text up to the first character of this code, and the text from there on.
unfoldable pub break_at : ℕ → String → String × String
break_at k String.[] = (String.[], String.[])
break_at k (String.◌∷◌ c s) =
    let (before, behind) = break_at k s in
    if eqb (code c) k then (String.[], String.◌∷◌ c s) else (String.◌∷◌ c before, behind)

-- (.+)$ : one line, of which the `$` lets a last line break go.
unfoldable pub one_line : String → Option String
unfolding break_at
one_line s =
    let (line, behind) = break_at 10 s in
    if line == "" then none else if behind == "" || behind == "\n" then some line else none

-- ^col:([^:]+)::(.+)$
unfoldable pub match_column : String → Option (String × String)
unfolding break_at one_line after_prefix
match_column node_id = elim (after_prefix "col:" node_id) [
  | none ↦ none
  | some body ↦
      let (table, behind) = break_at b':' body in
      if table == "" then none else elim (after_prefix "::" behind) [
        | none ↦ none
        | some column ↦ elim (one_line column) [ none ↦ none | some line ↦ some (table, line) ]
      ]
]

-- parts[-1]
unfoldable pub last_part : List String → Option String
last_part [] = none
last_part (s ∷ []) = some s
last_part (s ∷ t ∷ rest) = last_part (t ∷ rest)

-- The fallback for ids of another form, which looks at the id's parts between the colons.
unfoldable pub last_of_column : List String → Option String
unfolding last_part
last_of_column (head ∷ next ∷ rest) = if head == "col" then last_part (next ∷ rest) else none
last_of_column _ = none

unfoldable pub parse_node_id : String → Option String × Option String
unfolding match_column last_of_column split
parse_node_id node_id = elim (match_column node_id) [
  | some (table, column) ↦ (some table, some column)
  | none ↦ (none, last_of_column (split b':' node_id))
]

unfoldable pub hop_to_edge : HopRecord → BacktrackEdge
hop_to_edge hop = record {
  src_node_id = hop.src_node_id;
  dst_node_id = hop.dst_node_id;
  edge_id = hop.edge_id;
  artifact_id = hop.artifact_id;
  source_path = hop.source_path;
  expr = hop.expr;
  transform_category = hop.transform_category;
  src_fqn = hop.src_fqn;
  src_col = hop.src_col;
  dst_fqn = hop.dst_fqn;
  dst_col = hop.dst_col;
}

-- value or default, for a text or None
unfoldable pub or_else : Option String → Option String → Option String
or_else none default = default
or_else (some s) default = if s == "" then default else some s

-- f"{src}|{dst}|{edge_id}"
unfoldable pub edge_key : HopRecord → String
unfolding ◌⊕◌
edge_key hop =
    hop.src_node_id ⊕ "|" ⊕ hop.dst_node_id ⊕ "|" ⊕ elim hop.edge_id [ none ↦ "None" | some e ↦ e ]

-- The node of a hop's source; the hop's own names go before the parsed ones.
unfoldable pub source_node : ℕ → HopRecord → BacktrackNode
unfolding parse_node_id or_else
source_node depth hop =
    let (table, column) = parse_node_id hop.src_node_id in
    record {
      node_id = hop.src_node_id;
      table_fqn = or_else hop.src_fqn table;
      column_name = or_else hop.src_col column;
      depth = depth;
      is_target = false;
      is_source = false;
    }

unfoldable pub target_node : String → BacktrackNode
unfolding parse_node_id
target_node node_id =
    let (table, column) = parse_node_id node_id in
    record {
      node_id = node_id;
      table_fqn = table;
      column_name = column;
      depth = 0;
      is_target = true;
      is_source = false;
    }

-- The variables of one level and those of the whole walk. The ids of `all_nodes` are its keys.
pub record Walk : Type 0 where
  pub level_columns : List BacktrackNode
  pub level_transformations : List BacktrackEdge
  pub next_frontier : List String
  pub seen_edges : List String
  pub visited : List String
  pub all_nodes : List BacktrackNode
  pub all_edges : List BacktrackEdge

-- The edge of a hop, once for each key.
unfoldable pub take_edge : HopRecord → Walk → Walk
unfolding edge_key hop_to_edge
take_edge hop w = if elem (edge_key hop) w.seen_edges then w else record w {
  level_transformations = w.level_transformations ++ hop_to_edge hop ∷ [];
  all_edges = w.all_edges ++ hop_to_edge hop ∷ [];
  seen_edges = w.seen_edges ++ edge_key hop ∷ [];
}

-- The source of a hop, once in the walk.
unfoldable pub take_source : ℕ → HopRecord → Walk → Walk
unfolding source_node add_node
take_source depth hop w = if elem hop.src_node_id w.visited then w else record w {
  visited = w.visited ++ hop.src_node_id ∷ [];
  level_columns = w.level_columns ++ source_node depth hop ∷ [];
  all_nodes = w.all_nodes ++ source_node depth hop ∷ [];
  next_frontier = add_node hop.src_node_id w.next_frontier;
}

unfoldable pub visit : (HopRecord → Bool) → ℕ → HopRecord → Walk → Walk
unfolding take_edge take_source
visit pruned depth hop w = if pruned hop then w else take_source depth hop (take_edge hop w)

unfoldable pub visit_all : (HopRecord → Bool) → ℕ → List HopRecord → Walk → Walk
unfolding visit
visit_all pruned depth [] w = w
visit_all pruned depth (hop ∷ hops) w = visit_all pruned depth hops (visit pruned depth hop w)

unfoldable pub sweep : SublineageGraph → (HopRecord → Bool) → ℕ → List String → Walk → Walk
unfolding visit_all neighbors
sweep g pruned depth [] w = w
sweep g pruned depth (node ∷ nodes) w =
    sweep g pruned depth nodes (visit_all pruned depth (neighbors g node upstream) w)

-- The level's own variables are empty at its begin.
unfoldable pub begin_level : Walk → Walk
begin_level w = record w {
  level_columns = [];
  level_transformations = [];
  next_frontier = [];
  seen_edges = [];
}

-- The level is kept where it has a column or an edge.
unfoldable pub kept_level : ℕ → List BacktrackNode → List BacktrackEdge → List BacktrackLevel
kept_level depth [] [] = []
kept_level depth [] (e ∷ es) = record { depth = depth; columns = []; transformations = e ∷ es } ∷ []
kept_level depth (n ∷ ns) es = record { depth = depth; columns = n ∷ ns; transformations = es } ∷ []

unfoldable pub level_of : ℕ → Walk → List BacktrackLevel
unfolding kept_level
level_of depth w = kept_level depth w.level_columns w.level_transformations

-- `x` if the list is empty, else `y`.
unfoldable pub if_empty {ℓ} : {A : Type ℓ} → List String → A → A → A
if_empty [] x y = x
if_empty (_ ∷ _) x y = y

module _ (order : List String → List String) where
  -- The nodes, edges and levels that are found from this level on; `left` levels are left.
  unfoldable pub loop :
      SublineageGraph → (HopRecord → Bool) → ℕ → ℕ → Walk → Walk × List BacktrackLevel
  unfolding sweep begin_level level_of if_empty
  loop g pruned zero depth w = (w, [])
  loop g pruned (suc left) depth w =
      let swept = sweep g pruned depth (order w.next_frontier) (begin_level w) in
      let (last, levels) = loop g pruned left (suc depth) swept in
      if_empty w.next_frontier (w, []) (last, level_of depth swept ++ levels)

unfoldable pub start : String → Walk
unfolding target_node
start target = record {
  level_columns = target_node target ∷ [];
  level_transformations = [];
  next_frontier = target ∷ [];
  seen_edges = [];
  visited = target ∷ [];
  all_nodes = target_node target ∷ [];
  all_edges = [];
}

-- not graph.neighbors(node_id, "upstream")
unfoldable pub is_root : SublineageGraph → String → Bool
unfolding neighbors
is_root g node_id = elim (neighbors g node_id upstream) [ [] ↦ true | _ ∷ _ ↦ false ]

unfoldable pub mark : SublineageGraph → BacktrackNode → BacktrackNode
unfolding is_root
mark g n = record n { is_source = if n.is_target then n.is_source else is_root g n.node_id }

unfoldable pub mark_level : SublineageGraph → BacktrackLevel → BacktrackLevel
unfolding mark
mark_level g l = record l { columns = map (mark g) l.columns }

-- max(level.depth for level in levels, default=0)
unfoldable pub deepest : List BacktrackLevel → ℕ
deepest [] = 0
deepest (l ∷ ls) = let rest = deepest ls in if ltb rest l.depth then l.depth else rest

pub data Outcome : Type 0 where
  -- None: the target is not in the graph.
  not_found : Outcome
  -- re.error: a pattern does not compile.
  bad_pattern : Outcome
  result : BacktrackResult → Outcome

module _ {ℓ} {Pattern : Type ℓ} (compile : String → Option Pattern) where
  both : Option Pattern → Option (List Pattern) → Option (List Pattern)
  both (some pat) (some pats) = some (pat ∷ pats)
  both _ _ = none

  compile_all : List String → Option (List Pattern)
  unfolding both
  compile_all [] = some []
  compile_all (p ∷ ps) = both (compile p) (compile_all ps)

  unfoldable pub compile_table_patterns : Option (List String) → Option (Option (List Pattern))
  unfolding compile_all
  compile_table_patterns none = some none
  compile_table_patterns (some []) = some none
  compile_table_patterns (some (p ∷ ps)) = Option.map some (compile_all (p ∷ ps))

  module _ (lower : String → String) (search : Pattern → String → Bool) where
    unfoldable pub any_matches : List Pattern → String → Bool
    any_matches [] s = false
    any_matches (p ∷ ps) s = search p s || any_matches ps s

    -- (transform_category or "unknown").lower()
    unfoldable pub category : HopRecord → String
    category hop = elim hop.transform_category [
      | none ↦ lower "unknown"
      | some c ↦ lower (if c == "" then "unknown" else c)
    ]

    unfoldable pub wrong_category : Option (List String) → HopRecord → Bool
    unfolding category
    wrong_category none hop = false
    wrong_category (some cats) hop = not (elem (category hop) cats)

    unfoldable pub excluded_table : Option (List Pattern) → Option String → Bool
    unfolding any_matches
    excluded_table (some pats) (some fqn) =
        if fqn == "" then false else any_matches pats (lower fqn)
    excluded_table _ _ = false

    unfoldable pub should_prune_hop :
        Option (List Pattern) → Option (List String) → HopRecord → Bool
    unfolding wrong_category excluded_table
    should_prune_hop pats cats hop = wrong_category cats hop || excluded_table pats hop.src_fqn

    unfoldable pub lowered : Option (List String) → Option (List String)
    lowered none = none
    lowered (some cats) = some (map lower cats)

    module _ (order : List String → List String) where
      unfoldable pub assemble : SublineageGraph → String → ℕ → (HopRecord → Bool) → BacktrackResult
      unfolding loop start parse_node_id mark_level deepest
      assemble g target max_depth pruned =
          let (w, found) = loop order g pruned max_depth 1 (start target) in
          let first : BacktrackLevel = record {
            depth = 0;
            columns = target_node target ∷ [];
            transformations = [];
          } in
          let levels = first ∷ found in
          record {
            target_node_id = target;
            target_fqn = (parse_node_id target).0;
            target_column = (parse_node_id target).1;
            levels = map (mark_level g) levels;
            total_nodes = length w.all_nodes;
            total_edges = length w.all_edges;
            max_depth_reached = deepest levels;
            pipeline_run_id = g.pipeline_run_id;
            version_hash = none;
          }

      unfoldable pub backtrack_from_target :
          SublineageGraph → String → ℕ → Option (List String) → Option (List String) → Outcome
      unfolding has_node compile_table_patterns should_prune_hop lowered assemble
      backtrack_from_target g target max_depth exclude include =
          if has_node g target
          then elim (compile_table_patterns exclude) [
            | none ↦ bad_pattern
            | some pats ↦
                result (assemble g target max_depth (should_prune_hop pats (lowered include)))
          ]
          else not_found
