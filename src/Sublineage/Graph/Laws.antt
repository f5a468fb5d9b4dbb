-- ===== src/Sublineage/Graph/Laws.antt =====
-- What the two adjacency tables of a built graph hold.
use mathlib.Core.List.{Memᴰ, append-nil, append_assoc}
use mathlib.Core.List.Memᴰ
use mathlib.Core.Logic.{⊎_elim}
use bricktrace.Prelude.{
  ◌≡◌, refl, ◌↔◌, inl, inr, String, true, false, ◌||◌, ◌==◌, eq_iff, List, [], ◌∷◌, ◌++◌, arith,
  elem, elem-append, if◌then◌else◌, Bool-cases, ap, sym, ◌∙◌, length, ◌+◌, length-append,
}
use bricktrace.Prelude.Dict.{Dict, lookup, insert, lookup-insert}
use bricktrace.Sublineage.Graph.{
  Direction, downstream, upstream, HopRecord, SublineageGraph, get_adj, neighbors, has_node,
  far_end, append_adj, add_node, add_hop, add_hops, empty_graph, build_graph, sum_lengths,
  edge_count,
}

-- The end of a hop at which a walk in this direction takes it.
unfoldable pub near_end : Direction → HopRecord → String
near_end downstream hop = hop.src_node_id
near_end upstream hop = hop.dst_node_id

-- The hops that start at the node, in the order of the rows.
unfoldable pub hops_at : Direction → String → List HopRecord → List HopRecord
hops_at d node [] = []
hops_at d node (hop ∷ rows) =
    let rest = hops_at d node rows in if node == near_end d hop then hop ∷ rest else rest

get_adj-append_adj :
    (n m : String) (hop : HopRecord) (adj : Dict (List HopRecord))
    → get_adj n (append_adj m hop adj)
      ≡ (if n == m then get_adj n adj ++ hop ∷ [] else get_adj n adj)
unfolding get_adj append_adj
get_adj-append_adj n m hop adj =
    ground (arith, lookup-insert m n (get_adj m adj ++ hop ∷ []) adj, eq_iff n m)

neighbors-add_hop :
    (g : SublineageGraph) (hop : HopRecord) (n : String) (d : Direction)
    → neighbors (add_hop g hop) n d
      ≡ (if n == near_end d hop then neighbors g n d ++ hop ∷ [] else neighbors g n d)
unfolding neighbors add_hop near_end
neighbors-add_hop g hop n downstream = get_adj-append_adj n hop.src_node_id hop g.out_adj
neighbors-add_hop g hop n upstream = get_adj-append_adj n hop.dst_node_id hop g.in_adj

neighbors-add_hops :
    (g : SublineageGraph) (rows : List HopRecord) (n : String) (d : Direction)
    → neighbors (add_hops g rows) n d ≡ neighbors g n d ++ hops_at d n rows
unfolding add_hops hops_at
neighbors-add_hops g [] n d = sym (append-nil (neighbors g n d))
neighbors-add_hops g (hop ∷ rows) n d = elim (Bool-cases (n == near_end d hop)) [
  | inl e ↦
      rw (neighbors-add_hops (add_hop g hop) rows n d, neighbors-add_hop g hop n d, e)
        (append_assoc (neighbors g n d) (hop ∷ []) (hops_at d n rows))
  | inr e ↦ rw (neighbors-add_hops (add_hop g hop) rows n d, neighbors-add_hop g hop n d, e)
]

-- A built graph lists at each node, in either direction, exactly the rows that leave it there, each
-- as often as it was loaded and in the order of the rows.
pub neighbors-build_graph :
    (run : String) (rows : List HopRecord) (n : String) (d : Direction)
    → neighbors (build_graph run rows) n d ≡ hops_at d n rows
unfolding build_graph
neighbors-build_graph run rows n d = neighbors-add_hops (empty_graph run) rows n d ∙ nothing d
  where
    nothing :
        (d : Direction) → neighbors (empty_graph run) n d ++ hops_at d n rows ≡ hops_at d n rows
    nothing downstream = unfold neighbors get_adj lookup in refl
    nothing upstream = unfold neighbors get_adj lookup in refl

pub mem-hops_at :
    (d : Direction) (n : String) (hop : HopRecord) (rows : List HopRecord)
    → Memᴰ hop (hops_at d n rows) ↔ (Memᴰ hop rows × (n ≡ near_end d hop))
unfolding hops_at
mem-hops_at d n hop [] = (λ m. absurd (Memᴰ.not-nil m), λ m. m.0)
mem-hops_at d n hop (r ∷ rows) = elim (Bool-cases (n == near_end d r)) [
  | inl e ↦ rw e (
    λ m.
        ⊎_elim (λ q. (Memᴰ.head q, rw q ((eq_iff n (near_end d r)).0 e)))
          (λ t. let (t', same) = (mem-hops_at d n hop rows).0 t in (Memᴰ.tail t', same))
          (Memᴰ.cases_cons m),
    λ (m, same).
        ⊎_elim Memᴰ.head (λ t. Memᴰ.tail ((mem-hops_at d n hop rows).1 (t, same)))
          (Memᴰ.cases_cons m),
  )
  | inr e ↦ rw e (
    λ m. let (t', same) = (mem-hops_at d n hop rows).0 m in (Memᴰ.tail t', same),
    λ (m, same).
        ⊎_elim (λ q. absurd (elsewhere e (same ∙ ap (near_end d) q)))
          (λ t. (mem-hops_at d n hop rows).1 (t, same)) (Memᴰ.cases_cons m),
  )
]
  where
    elsewhere : (n == near_end d r) ≡ false → ¬ (n ≡ near_end d r)
    elsewhere e q = cc (e, (eq_iff n (near_end d r)).1 q)

unfoldable pub opposite : Direction → Direction
opposite downstream = upstream
opposite upstream = downstream

near_end-opposite : (d : Direction) (hop : HopRecord) → near_end (opposite d) hop ≡ far_end d hop
unfolding near_end far_end opposite
near_end-opposite downstream hop = refl
near_end-opposite upstream hop = refl

-- The two tables describe one set of hops.
pub record IsMirrored (g : SublineageGraph) : Type 0 where
  pub leaves :
      (d : Direction) (n : String) (hop : HopRecord)
      → Memᴰ hop (neighbors g n d)
      → n ≡ near_end d hop
  pub mirrors :
      (d : Direction) (n : String) (hop : HopRecord)
      → Memᴰ hop (neighbors g n d)
      → Memᴰ hop (neighbors g (far_end d hop) (opposite d))
  pub names :
      (d : Direction) (n : String) (hop : HopRecord)
      → Memᴰ hop (neighbors g n d)
      → has_node g n ≡ true

pub elem-add_node : (n m : String) (l : List String) → elem n (add_node m l) ≡ (n == m || elem n l)
unfolding add_node elem
elem-add_node n m l = ground (arith, elem-append n l (m ∷ []), eq_iff n m)

has_node-add_hops :
    (g : SublineageGraph) (rows : List HopRecord) (n : String)
    → has_node g n ≡ true
    → has_node (add_hops g rows) n ≡ true
unfolding has_node add_hops add_hop
has_node-add_hops g [] n h = h
has_node-add_hops g (r ∷ rows) n h = has_node-add_hops (add_hop g r) rows n (
    ground (
      arith,
      elem-add_node n r.dst_node_id (add_node r.src_node_id g.nodes),
      elem-add_node n r.src_node_id g.nodes,
    ))

pub has_node-near_end :
    (g : SublineageGraph) (rows : List HopRecord) (d : Direction) (hop : HopRecord)
    → Memᴰ hop rows
    → has_node (add_hops g rows) (near_end d hop) ≡ true
unfolding add_hops
has_node-near_end g [] d hop m = absurd (Memᴰ.not-nil m)
has_node-near_end g (r ∷ rows) d hop m =
    ⊎_elim (λ q. rw q (has_node-add_hops (add_hop g r) rows (near_end d r) (added d)))
      (λ t. has_node-near_end (add_hop g r) rows d hop t) (Memᴰ.cases_cons m)
  where
    added : (d : Direction) → has_node (add_hop g r) (near_end d r) ≡ true
    added downstream =
        unfold has_node add_hop near_end in
        ground (
          arith,
          elem-add_node r.src_node_id r.dst_node_id (add_node r.src_node_id g.nodes),
          elem-add_node r.src_node_id r.src_node_id g.nodes,
          eq_iff r.src_node_id r.src_node_id,
        )
    added upstream =
        unfold has_node add_hop near_end in
        ground (
          arith,
          elem-add_node r.dst_node_id r.dst_node_id (add_node r.src_node_id g.nodes),
          eq_iff r.dst_node_id r.dst_node_id,
        )

-- In a graph that is built from rows, whatever they are, the hops of a node leave it there, each is
-- also listed at its other end in the other direction, and their ends are nodes.
pub build_graph-IsMirrored :
    (run : String) (rows : List HopRecord) → IsMirrored (build_graph run rows)
build_graph-IsMirrored run rows = record {
  leaves = λ d n hop m. (at_row d n hop m).1;
  mirrors = λ d n hop m. rw neighbors-build_graph (
      (mem-hops_at (opposite d) (far_end d hop) hop rows).1
        ((at_row d n hop m).0, sym (near_end-opposite d hop)));
  names = λ d n hop m.
      let (row, q) = at_row d n hop m in
      rw q (unfold build_graph in has_node-near_end (empty_graph run) rows d hop row);
}
  where
    at_row :
        (d : Direction) (n : String) (hop : HopRecord)
        → Memᴰ hop (neighbors (build_graph run rows) n d)
        → Memᴰ hop rows × (n ≡ near_end d hop)
    at_row d n hop m = (mem-hops_at d n hop rows).0 (rw neighbors-build_graph at m)

sum_lengths-insert :
    (n : String) (hop : HopRecord) (adj : Dict (List HopRecord))
    → sum_lengths (append_adj n hop adj) ≡ sum_lengths adj + 1
unfolding append_adj get_adj sum_lengths insert lookup
sum_lengths-insert n hop [] = refl
sum_lengths-insert n hop ((m, hops) ∷ adj) =
    ground (arith, sum_lengths-insert n hop adj, length-append hops (hop ∷ []))

edge_count-add_hops :
    (g : SublineageGraph) (rows : List HopRecord)
    → edge_count (add_hops g rows) ≡ edge_count g + length rows
unfolding edge_count add_hops add_hop
edge_count-add_hops g [] = omega arith
edge_count-add_hops g (r ∷ rows) =
    omega
      (arith, edge_count-add_hops (add_hop g r) rows, sum_lengths-insert r.src_node_id r g.out_adj)

-- Loading rows loses none and invents none: a built graph has as many edges as rows.
pub edge_count-build_graph :
    (run : String) (rows : List HopRecord) → edge_count (build_graph run rows) ≡ length rows
unfolding build_graph edge_count sum_lengths
edge_count-build_graph run rows = omega (arith, edge_count-add_hops (empty_graph run) rows)
