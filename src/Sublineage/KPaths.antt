-- ===== src/Sublineage/KPaths.antt =====
-- transformation_lineage/sublineage/k_paths.py: the depth-first enumeration of simple paths. The
-- list `path` and the set `visited` are restored after each call, so they are arguments; the list
-- `results` is threaded through.
pub mod Search
pub mod Order
pub mod Enumerate
use bricktrace.Prelude.{
  ℕ, zero, suc, String, Bool, ◌==◌, not, ◌||◌, List, [], ◌∷◌, ◌++◌, length, elem, leb, eqb,
  if◌then◌else◌,
}
use bricktrace.Sublineage.Graph.{HopRecord, SublineageGraph, downstream, neighbors, has_node}

abbrev pub HopPath : Type 0
HopPath = List HopRecord

-- `results.sort(key=len)`, which is stable: a path goes before the first one that is longer.
unfoldable pub insert_path : HopPath → List HopPath → List HopPath
insert_path p [] = p ∷ []
insert_path p (q ∷ qs) =
    let rest = insert_path p qs in if leb (length p) (length q) then p ∷ q ∷ qs else q ∷ rest

unfoldable pub sort_paths : List HopPath → List HopPath
unfolding insert_path
sort_paths [] = []
sort_paths (p ∷ ps) = insert_path p (sort_paths ps)

module _ (g : SublineageGraph) (dst : String) (max_paths : ℕ) where
  -- The recursive call of the loop, one level deeper.
  abbrev pub Visit : Type 0
  Visit = String → HopPath → List String → List HopPath → List HopPath

  -- The loop over the hops of one node.
  unfoldable pub scan : Visit → List HopRecord → HopPath → List String → List HopPath → List HopPath
  scan visit [] path visited results = results
  scan visit (hop ∷ hops) path visited results =
      let nxt = hop.dst_node_id in
      let skipped = scan visit hops path visited results in
      let hit = results ++ (path ++ hop ∷ []) ∷ [] in
      let deeper = visit nxt (path ++ hop ∷ []) (nxt ∷ visited) results in
      let after_hit = scan visit hops path visited hit in
      let after_deeper = scan visit hops path visited deeper in
      if elem nxt visited
      then skipped
      else if nxt == dst
      then (if leb max_paths (length hit) then hit else after_hit)
      else (if leb max_paths (length deeper) then deeper else after_deeper)

  -- `_dfs`; the number is `max_depth - depth`, the levels that are left.
  unfoldable pub dfs : ℕ → Visit
  unfolding scan
  dfs zero node path visited results = results
  dfs (suc left) node path visited results =
      let searched = scan (dfs left) (neighbors g node downstream) path visited results in
      if leb max_paths (length results) then results else searched

unfoldable pub find_paths : SublineageGraph → String → String → ℕ → ℕ → List HopPath
find_paths g src dst max_depth max_paths =
    let searched = dfs g dst max_paths max_depth src [] (src ∷ []) [] in
    if src == dst
    then [] ∷ []
    else if not (has_node g src) || not (has_node g dst)
    then []
    else if eqb max_paths 0 || eqb max_depth 0
    then []
    else sort_paths searched
