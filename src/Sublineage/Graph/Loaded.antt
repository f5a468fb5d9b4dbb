-- ===== src/Sublineage/Graph/Loaded.antt =====
-- The graph that backend/sublineage_graph.py loads holds its rows and nothing else.
use mathlib.Core.List.{Memᴰ}
use mathlib.Core.Logic.{⊎_elim}
use bricktrace.Prelude.{
  ◌≡◌, refl, ◌⊎◌, inl, inr, String, true, ◌==◌, eq_iff, List, [], ◌∷◌, arith, elem, Bool-cases,
  length,
}
use bricktrace.Sublineage.Graph.{
  Direction, downstream, upstream, HopRecord, SublineageGraph, neighbors, has_node, add_node,
  add_hop, add_hops, empty_graph, build_graph, edge_count,
}
use bricktrace.Sublineage.Graph.Laws.{
  near_end, hops_at, neighbors-build_graph, elem-add_node, has_node-near_end,
  edge_count-build_graph,
}

-- What it means that a graph holds the rows and nothing else.
pub record IsLoaded (rows : List HopRecord) (g : SublineageGraph) : Type 0 where
  pub tables : (d : Direction) (n : String) → neighbors g n d ≡ hops_at d n rows
  pub ends : (d : Direction) (hop : HopRecord) → Memᴰ hop rows → has_node g (near_end d hop) ≡ true
  pub nodes :
      (n : String)
      → has_node g n ≡ true
      → (d : Direction) × (hop : HopRecord) × Memᴰ hop rows × (n ≡ near_end d hop)
  pub edges : edge_count g ≡ length rows

elem_cases :
    (n m : String) (l : List String) → elem n (add_node m l) ≡ true → (n ≡ m) ⊎ (elem n l ≡ true)
elem_cases n m l h = elim (Bool-cases (n == m)) [
  | inl e ↦ inl ((eq_iff n m).0 e)
  | inr e ↦ inr (ground (arith, elem-add_node n m l))
]

node_of_row :
    (g : SublineageGraph) (rows : List HopRecord) (n : String)
    → has_node (add_hops g rows) n ≡ true
    → (has_node g n ≡ true)
      ⊎ ((d : Direction) × (hop : HopRecord) × Memᴰ hop rows × (n ≡ near_end d hop))
unfolding add_hops
node_of_row g [] n h = inl h
node_of_row g (r ∷ rows) n h =
    ⊎_elim added (λ (d, hop, m, q). inr (d, hop, Memᴰ.tail m, q))
      (node_of_row (add_hop g r) rows n h)
  where
    added :
        has_node (add_hop g r) n ≡ true
        → (has_node g n ≡ true)
          ⊎ ((d : Direction) × (hop : HopRecord) × Memᴰ hop (r ∷ rows) × (n ≡ near_end d hop))
    added e =
        unfold has_node add_hop near_end in
        ⊎_elim (λ q. inr (upstream, r, Memᴰ.head refl, q))
          (λ e'.
            ⊎_elim (λ q. inr (downstream, r, Memᴰ.head refl, q)) inl
              (elem_cases n r.src_node_id g.nodes e'))
          (elem_cases n r.dst_node_id (add_node r.src_node_id g.nodes) e)

-- The graph that is built from rows lists at each node, in either direction, exactly the rows that
-- leave it there, each as often as it was loaded and in the order of the rows; its nodes are exactly
-- the ends of the rows; and it has as many edges as rows.
pub build_graph-IsLoaded :
    (run : String) (rows : List HopRecord) → IsLoaded rows (build_graph run rows)
build_graph-IsLoaded run rows = record {
  tables = λ d n. neighbors-build_graph run rows n d;
  ends = λ d hop m. unfold build_graph in has_node-near_end (empty_graph run) rows d hop m;
  nodes = λ n h.
      unfold build_graph in
      ⊎_elim (λ e. absurd (none_yet n e)) (λ found. found) (node_of_row (empty_graph run) rows n h);
  edges = edge_count-build_graph run rows;
}
  where
    none_yet : (n : String) → ¬ (has_node (empty_graph run) n ≡ true)
    none_yet n e = unfold has_node elem in cc e
