-- ===== src/Tests/Sublineage.antt =====
-- Tests and examples of Sublineage.
use bricktrace.Prelude.{
  Bool, Option, ◌==◌, ◌≡◌, refl, List, [], ◌∷◌, none, some, arith, String, elem,
}
use bricktrace.Prelude.Text.{split, after_prefix}
use bricktrace.Sublineage.Backtrack
use bricktrace.Sublineage.Backtrack.{
  BacktrackResult, backtrack_from_target, should_prune_hop, lowered, result, parse_node_id,
}
use bricktrace.Sublineage.Backtrack.Complete.Result.{IsExact, backtrack_from_target-IsExact}
use bricktrace.Prelude.Dict.{lookup, insert, known}
use bricktrace.Sublineage.Graph.{HopRecord, neighbors, build_graph, add_hop, has_node, far_end}
use bricktrace.Sublineage.Graph.Loaded.{IsLoaded, build_graph-IsLoaded}
use bricktrace.Sublineage.Bfs.{
  no_path, found, shortest_path, loop, round, sweep, offer_all, offer, answer, walk_back,
}
use bricktrace.Sublineage.KPaths.{find_paths, dfs, sort_paths}
use bricktrace.Sublineage.KPaths.Enumerate.{IsEnumeration, find_paths-IsEnumeration}
use bricktrace.Sublineage.Bfs.Shortest.{IsShortest, shortest_path-IsShortest}

abbrev hop : String → String → HopRecord
hop a b = record {
  src_node_id = a;
  dst_node_id = b;
  edge_id = some a;
  artifact_id = none;
  source_path = none;
  expr = none;
  expr_lang = none;
  expr_sql = none;
  transform_category = some "cast";
  src_fqn = none;
  src_col = none;
  dst_fqn = none;
  dst_col = none;
}

-- a → b → c → d, with a short cut b → d and a cycle c → a.
abbrev rows : List HopRecord
rows = hop "a" "b" ∷ hop "b" "c" ∷ hop "c" "d" ∷ hop "b" "d" ∷ hop "c" "a" ∷ []

abbrev same_order : List String → List String
same_order xs = xs

shortest :
    (shortest_path same_order (build_graph "r" rows) "a" "d" 6
      ≡ found (hop "a" "b" ∷ hop "b" "d" ∷ []))
    × (shortest_path same_order (build_graph "r" rows) "a" "d" 1 ≡ no_path)
    × (shortest_path same_order (build_graph "r" rows) "d" "a" 6 ≡ no_path)
unfolding shortest_path loop round answer walk_back sweep offer_all offer build_graph add_hop
    has_node neighbors lookup insert known elem far_end
shortest = (refl, refl, refl)

shortest_path-IsShortest_example :
    IsShortest
      (build_graph "r" rows)
      "a"
      "d"
      6
      (shortest_path same_order (build_graph "r" rows) "a" "d" 6)
shortest_path-IsShortest_example =
    shortest_path-IsShortest same_order (λ x xs. refl) "r" rows "a" "d" 6

build_graph-IsLoaded_example : IsLoaded rows (build_graph "r" rows)
build_graph-IsLoaded_example = build_graph-IsLoaded "r" rows

enumerated :
    find_paths (build_graph "r" rows) "a" "d" 6 25
    ≡ (hop "a" "b" ∷ hop "b" "d" ∷ []) ∷ (hop "a" "b" ∷ hop "b" "c" ∷ hop "c" "d" ∷ []) ∷ []
unfolding find_paths dfs sort_paths build_graph add_hop has_node neighbors lookup insert elem
enumerated = refl

-- The guard on the number of paths stands behind the answer for equal ends.
no_room_ignored :
    (find_paths (build_graph "r" rows) "a" "a" 6 0 ≡ [] ∷ [])
    × (find_paths (build_graph "r" rows) "a" "d" 6 0 ≡ [])
unfolding find_paths has_node elem build_graph add_hop
no_room_ignored = (refl, refl)

find_paths-IsEnumeration_example :
    IsEnumeration
      (build_graph "r" rows)
      "a"
      "d"
      6
      25
      (find_paths (build_graph "r" rows) "a" "d" 6 25)
find_paths-IsEnumeration_example = find_paths-IsEnumeration "r" rows "a" "d" 6 25 (omega arith)

parsed :
    (parse_node_id "col:a.b.c::x::y" ≡ (some "a.b.c", some "x::y"))
    × (parse_node_id "col:out:art:z" ≡ (none, some "z"))
    × (parse_node_id "tbl:x" ≡ (none, none))
unfolding parse_node_id Backtrack.match_column Backtrack.break_at Backtrack.one_line after_prefix
    Backtrack.last_of_column Backtrack.last_part split
parsed = (refl, refl, refl)

abbrev compile : String → Option String
compile s = some s

abbrev same_case : String → String
same_case s = s

abbrev search : String → String → Bool
search p s = p == s

backtrack_from_target-IsExact_example :
    (r : BacktrackResult) × (backtrack_from_target compile same_case search same_order
        (build_graph "r" rows)
        "d"
        6
        (some ("staging" ∷ []))
        (some ("cast" ∷ []))
      ≡ result r)
    × IsExact
        (build_graph "r" rows)
        (should_prune_hop compile same_case search
          (some ("staging" ∷ []))
          (lowered compile same_case search (some ("cast" ∷ []))))
        "d"
        6
        r
unfolding build_graph add_hop has_node insert elem Backtrack.compile_table_patterns
backtrack_from_target-IsExact_example =
    backtrack_from_target-IsExact compile same_case search same_order (λ x xs. refl)
      (build_graph "r" rows) "d" 6 (some ("staging" ∷ [])) (some ("cast" ∷ []))
      (some ("staging" ∷ [])) refl refl
