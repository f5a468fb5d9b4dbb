-- ===== src/Sublineage/Backtrack/Levels.antt =====
-- The lists that a level of transformation_lineage/sublineage/backtrack.py keeps in step.
use mathlib.Core.List.{Memᴰ}
use mathlib.Core.List.Memᴰ
use mathlib.Core.List.{append_assoc}
use bricktrace.Prelude.{
  distinct, distinct-append, ℕ, String, Bool, true, false, ◌||◌, eq_iff, if◌then◌else◌, List, [],
  ◌∷◌, ◌++◌, none, some, elem, ◌≡◌, refl, ap, ◌∙◌, arith, ◌⊎◌, inl, inr, Bool-cases,
}
use bricktrace.Prelude.Text.{◌⊕◌}
use bricktrace.Sublineage.Graph.{HopRecord}
use bricktrace.Sublineage.Backtrack.{
  BacktrackNode, BacktrackEdge, Walk, edge_key, hop_to_edge, source_node, take_edge, take_source,
  visit, visit_all,
}
use bricktrace.Sublineage.Backtrack.Sweep.{ids, sources, visit-visited}

-- The key of an edge, which is that of its hop.
unfoldable pub key_of : BacktrackEdge → String
unfolding ◌⊕◌
key_of e = e.src_node_id ⊕ "|" ⊕ e.dst_node_id ⊕ "|" ⊕ elim e.edge_id [ none ↦ "None" | some i ↦ i ]

unfoldable pub keys_of : List BacktrackEdge → List String
keys_of [] = []
keys_of (e ∷ es) = key_of e ∷ keys_of es

key_of-hop_to_edge : (hop : HopRecord) → key_of (hop_to_edge hop) ≡ edge_key hop
unfolding key_of hop_to_edge edge_key
key_of-hop_to_edge hop = refl

pub ids-append : (ns ms : List BacktrackNode) → ids (ns ++ ms) ≡ ids ns ++ ids ms
unfolding ids
ids-append [] ms = refl
ids-append (n ∷ ns) ms = ap (◌∷◌ n.node_id) (ids-append ns ms)

pub keys_of-append : (es fs : List BacktrackEdge) → keys_of (es ++ fs) ≡ keys_of es ++ keys_of fs
unfolding keys_of
keys_of-append [] fs = refl
keys_of-append (e ∷ es) fs = ap (◌∷◌ (key_of e)) (keys_of-append es fs)

-- The walk's lists extend those of the levels before by those of this level, each node has its id
-- in `visited`, which has no repetition, and each edge its key in `seen_edges`.
pub record IsKept (nodes : List BacktrackNode) (edges : List BacktrackEdge) (w : Walk)
    : Type 0 where
  pub nodes_kept : w.all_nodes ≡ nodes ++ w.level_columns
  pub edges_kept : w.all_edges ≡ edges ++ w.level_transformations
  pub ids_kept : ids w.all_nodes ≡ w.visited
  pub keys_kept : keys_of w.level_transformations ≡ w.seen_edges
  pub once : distinct w.visited ≡ true

module _ (nodes : List BacktrackNode) (edges : List BacktrackEdge) where
  pub take_edge-all_nodes : (hop : HopRecord) (w : Walk) → (take_edge hop w).all_nodes ≡ w.all_nodes
  unfolding take_edge
  take_edge-all_nodes hop w = ground arith

  take_edge-IsKept :
      (hop : HopRecord) (w : Walk) → IsKept nodes edges w → IsKept nodes edges (take_edge hop w)
  unfolding take_edge keys_of
  take_edge-IsKept hop w k = elim (Bool-cases (elem (edge_key hop) w.seen_edges)) [
    | inl e ↦ rw e k
    | inr e ↦ rw e (record {
      nodes_kept = k.nodes_kept;
      edges_kept =
          rw k.edges_kept (append_assoc edges w.level_transformations (hop_to_edge hop ∷ []));
      ids_kept = k.ids_kept;
      keys_kept =
          keys_of-append w.level_transformations (hop_to_edge hop ∷ [])
          ∙ rw (k.keys_kept, key_of-hop_to_edge hop);
      once = k.once;
    })
  ]

  take_source-IsKept :
      (depth : ℕ) (hop : HopRecord) (w : Walk)
      → IsKept nodes edges w
      → IsKept nodes edges (take_source depth hop w)
  unfolding take_source source_node ids
  take_source-IsKept depth hop w k = elim (Bool-cases (elem hop.src_node_id w.visited)) [
    | inl e ↦ rw e k
    | inr e ↦ rw e (record {
      nodes_kept =
          rw k.nodes_kept (append_assoc nodes w.level_columns (source_node depth hop ∷ []));
      edges_kept = k.edges_kept;
      ids_kept =
          ids-append w.all_nodes (source_node depth hop ∷ [])
          ∙ ap (λ l. l ++ hop.src_node_id ∷ []) k.ids_kept;
      keys_kept = k.keys_kept;
      once = distinct-append w.visited hop.src_node_id ∙ rw (k.once, e);
    })
  ]

  module _ (pruned : HopRecord → Bool) (depth : ℕ) where
    visit-IsKept :
        (hop : HopRecord) (w : Walk)
        → IsKept nodes edges w
        → IsKept nodes edges (visit pruned depth hop w)
    unfolding visit
    visit-IsKept hop w k = elim (Bool-cases (pruned hop)) [
      | inl e ↦ rw e k
      | inr e ↦ rw e (take_source-IsKept depth hop _ (take_edge-IsKept hop w k))
    ]

    pub visit_all-IsKept :
        (hops : List HopRecord) (w : Walk)
        → IsKept nodes edges w
        → IsKept nodes edges (visit_all pruned depth hops w)
    unfolding visit_all
    visit_all-IsKept [] w k = k
    visit_all-IsKept (hop ∷ hops) w k =
        visit_all-IsKept hops (visit pruned depth hop w) (visit-IsKept hop w k)

module _ (pruned : HopRecord → Bool) (depth : ℕ) where
  -- A node of this level: the source of one of its hops, not met before.
  abbrev pub IsNew : List HopRecord → Walk → BacktrackNode → Type 0
  IsNew hops w n =
      (n.depth ≡ depth)
      × (elem n.node_id (sources pruned hops) ≡ true)
      × (elem n.node_id w.visited ≡ false)

  visit-all_nodes :
      (hop : HopRecord) (w : Walk)
      → (visit pruned depth hop w).all_nodes ≡ (
          if pruned hop
          then w.all_nodes
          else if elem hop.src_node_id w.visited
          then w.all_nodes
          else w.all_nodes ++ source_node depth hop ∷ [])
  unfolding visit take_source take_edge
  visit-all_nodes hop w = ground arith

  visit-nodes :
      (hop : HopRecord) (w : Walk) (n : BacktrackNode)
      → Memᴰ n (visit pruned depth hop w).all_nodes
      → Memᴰ n w.all_nodes
        ⊎ ((n.depth ≡ depth)
            × (n.node_id ≡ hop.src_node_id)
            × (pruned hop ≡ false)
            × (elem n.node_id w.visited ≡ false))
  unfolding source_node
  visit-nodes hop w n i = elim (Bool-cases (pruned hop)) [
    | inl e ↦ inl (rw (visit-all_nodes hop w, e) at i)
    | inr e ↦ elim (Bool-cases (elem hop.src_node_id w.visited)) [
      | inl q ↦ inl (rw (visit-all_nodes hop w, e, q) at i)
      | inr q ↦ elim (Memᴰ.append_cases w.all_nodes (rw (visit-all_nodes hop w, e, q) at i)) [
        | inl old ↦ inl old
        | inr here ↦
            let same : n ≡ source_node depth hop = Memᴰ.eq_of_singleton here in
            let id_same : n.node_id ≡ hop.src_node_id = ap (λ m. m.node_id) same in
            inr (ap (λ m. m.depth) same, id_same, e, rw id_same q)
      ]
    ]
  ]

  elem_head :
      (hop : HopRecord) (hops : List HopRecord) (s : String)
      → pruned hop ≡ false
      → s ≡ hop.src_node_id
      → elem s (sources pruned (hop ∷ hops)) ≡ true
  unfolding sources elem
  elem_head hop hops s kept same = ground (arith, eq_iff s hop.src_node_id)

  elem_tail :
      (hop : HopRecord) (hops : List HopRecord) (s : String)
      → elem s (sources pruned hops) ≡ true
      → elem s (sources pruned (hop ∷ hops)) ≡ true
  unfolding sources elem
  elem_tail hop hops s h = ground arith

  was_fresh : (a b c : Bool) → a ≡ (b || c) → a ≡ false → b ≡ false
  was_fresh a b c e h = ground arith

  pub visit_all-nodes :
      (hops : List HopRecord) (w : Walk) (n : BacktrackNode)
      → Memᴰ n (visit_all pruned depth hops w).all_nodes
      → Memᴰ n w.all_nodes ⊎ IsNew hops w n
  unfolding visit_all
  visit_all-nodes [] w n i = inl i
  visit_all-nodes (hop ∷ hops) w n i = elim (visit_all-nodes hops (visit pruned depth hop w) n i) [
    | inl old ↦ elim (visit-nodes hop w n old) [
      | inl older ↦ inl older
      | inr (d, same, kept, fresh) ↦ inr (d, elem_head hop hops n.node_id kept same, fresh)
    ]
    | inr new ↦
        let (d, in_rest, fresh) = new in
        inr (
          d,
          elem_tail hop hops n.node_id in_rest,
          was_fresh _ _ _ (visit-visited pruned depth hop w n.node_id) fresh,
        )
  ]
