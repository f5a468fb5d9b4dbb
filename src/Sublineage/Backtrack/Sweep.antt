-- ===== src/Sublineage/Backtrack/Sweep.antt =====
-- One level of transformation_lineage/sublineage/backtrack.py: what its loop over the hops adds.
use bricktrace.Prelude.{
  ℕ, String, Bool, ◌||◌, ◌&&◌, not, ◌==◌, eq_iff, if◌then◌else◌, List, [], ◌∷◌, ◌++◌, elem,
  elem-append, ◌≡◌, refl, sym, ◌∙◌, arith,
}
use bricktrace.Sublineage.Graph.{HopRecord, SublineageGraph, upstream, neighbors, add_node}
use bricktrace.Sublineage.Backtrack.{
  BacktrackNode, Walk, edge_key, take_edge, take_source, visit, visit_all, sweep,
}

-- The hops of these nodes, in order.
unfoldable pub hops_of : SublineageGraph → List String → List HopRecord
hops_of g [] = []
hops_of g (node ∷ nodes) = neighbors g node upstream ++ hops_of g nodes

unfoldable pub ids : List BacktrackNode → List String
ids [] = []
ids (n ∷ ns) = n.node_id ∷ ids ns

module _ (pruned : HopRecord → Bool) where
  -- The sources and the keys of the hops that are not pruned.
  unfoldable pub sources : List HopRecord → List String
  sources [] = []
  sources (hop ∷ hops) =
      let rest = sources hops in if pruned hop then rest else hop.src_node_id ∷ rest

  unfoldable pub edge_keys : List HopRecord → List String
  edge_keys [] = []
  edge_keys (hop ∷ hops) =
      let rest = edge_keys hops in if pruned hop then rest else edge_key hop ∷ rest

  module _ (depth : ℕ) where
    visit_all-append :
        (hops more : List HopRecord) (w : Walk)
        → visit_all pruned depth (hops ++ more) w
          ≡ visit_all pruned depth more (visit_all pruned depth hops w)
    unfolding visit_all
    visit_all-append [] more w = refl
    visit_all-append (hop ∷ hops) more w = visit_all-append hops more (visit pruned depth hop w)

    pub sweep-visit_all :
        (g : SublineageGraph) (nodes : List String) (w : Walk)
        → sweep g pruned depth nodes w ≡ visit_all pruned depth (hops_of g nodes) w
    unfolding sweep visit_all hops_of
    sweep-visit_all g [] w = refl
    sweep-visit_all g (node ∷ nodes) w =
        sweep-visit_all g nodes _
        ∙ sym (visit_all-append (neighbors g node upstream) (hops_of g nodes) w)

    pub visit-visited :
        (hop : HopRecord) (w : Walk) (s : String)
        → elem s (visit pruned depth hop w).visited
          ≡ (elem s w.visited || (not (pruned hop) && s == hop.src_node_id))
    unfolding visit take_edge take_source elem
    visit-visited hop w s =
        ground (arith, elem-append s w.visited (hop.src_node_id ∷ []), eq_iff s hop.src_node_id)

    pub visit_all-visited :
        (hops : List HopRecord) (w : Walk) (s : String)
        → elem s (visit_all pruned depth hops w).visited
          ≡ (elem s w.visited || elem s (sources hops))
    unfolding visit_all sources elem
    visit_all-visited [] w s = ground arith
    visit_all-visited (hop ∷ hops) w s =
        ground (arith, visit_all-visited hops (visit pruned depth hop w) s, visit-visited hop w s)

    visit-next :
        (hop : HopRecord) (w : Walk) (s : String)
        → elem s (visit pruned depth hop w).next_frontier ≡ (
            elem s w.next_frontier
            || (not (pruned hop) && (s == hop.src_node_id && not (elem s w.visited))))
    unfolding visit take_edge take_source elem add_node
    visit-next hop w s =
        ground
          (arith, elem-append s w.next_frontier (hop.src_node_id ∷ []), eq_iff s hop.src_node_id)

    pub visit_all-next :
        (hops : List HopRecord) (w : Walk) (s : String)
        → elem s (visit_all pruned depth hops w).next_frontier
          ≡ (elem s w.next_frontier || (elem s (sources hops) && not (elem s w.visited)))
    unfolding visit_all sources elem
    visit_all-next [] w s = ground arith
    visit_all-next (hop ∷ hops) w s = ground (
      arith,
      visit_all-next hops (visit pruned depth hop w) s,
      visit-visited hop w s,
      visit-next hop w s,
    )

    visit-seen :
        (hop : HopRecord) (w : Walk) (s : String)
        → elem s (visit pruned depth hop w).seen_edges
          ≡ (elem s w.seen_edges || (not (pruned hop) && s == edge_key hop))
    unfolding visit take_edge take_source elem
    visit-seen hop w s =
        ground (arith, elem-append s w.seen_edges (edge_key hop ∷ []), eq_iff s (edge_key hop))

    pub visit_all-seen :
        (hops : List HopRecord) (w : Walk) (s : String)
        → elem s (visit_all pruned depth hops w).seen_edges
          ≡ (elem s w.seen_edges || elem s (edge_keys hops))
    unfolding visit_all edge_keys elem
    visit_all-seen [] w s = ground arith
    visit_all-seen (hop ∷ hops) w s =
        ground (arith, visit_all-seen hops (visit pruned depth hop w) s, visit-seen hop w s)
