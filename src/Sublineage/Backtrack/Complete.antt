-- ===== src/Sublineage/Backtrack/Complete.antt =====
-- The levels of transformation_lineage/sublineage/backtrack.py against the upstream distance.
pub mod Result
use mathlib.Core.List.{Memᴰ, append-nil, append_assoc}
use mathlib.Core.List.Memᴰ
use bricktrace.Prelude.{
  distinct, ℕ, zero, suc, ◌+◌, ◌≤◌, ◌<◌, String, Bool, true, false, ◌||◌, ◌&&◌, not, ◌==◌, eq_iff,
  if◌then◌else◌, List, [], ◌∷◌, ◌++◌, Option, none, some, elem, elem-append, elem-cons_self, length,
  map, ◌≡◌, refl, sym, ap, ◌∙◌, arith, ◌⊎◌, inl, inr, Bool-cases, List-cases, leb, leb→le,
  leb_false→lt,
}
use bricktrace.Sublineage.Graph.{HopRecord, SublineageGraph, upstream, neighbors}
use bricktrace.Sublineage.Bfs.Expand.{KeepsElements}
use bricktrace.Sublineage.Backtrack.{
  BacktrackNode, BacktrackEdge, BacktrackLevel, Walk, edge_key, sweep, begin_level, visit_all,
  level_of, loop,
}
use bricktrace.Sublineage.Backtrack.Sweep.{
  ids, hops_of, sources, edge_keys, sweep-visit_all, visit_all-visited, visit_all-next,
  visit_all-seen,
}
use bricktrace.Sublineage.Backtrack.Levels.{
  keys_of, keys_of-append, IsKept, visit_all-IsKept, visit_all-nodes,
}

module _ (g : SublineageGraph) where
  hops_of_node :
      (nodes : List String) (m : String) (hop : HopRecord)
      → elem m nodes ≡ true
      → Memᴰ hop (neighbors g m upstream)
      → Memᴰ hop (hops_of g nodes)
  unfolding elem hops_of
  hops_of_node [] m hop e i = cc
  hops_of_node (n ∷ nodes) m hop e i = elim (Bool-cases (m == n)) [
    | inl q ↦ Memᴰ.append_left (hops_of g nodes) (rw ((eq_iff m n).0 q) at i)
    | inr q ↦ Memᴰ.append_right (neighbors g n upstream) (hops_of_node nodes m hop (rw q at e) i)
  ]

  node_of_hop :
      (nodes : List String) (hop : HopRecord)
      → Memᴰ hop (hops_of g nodes)
      → (m : String) × (elem m nodes ≡ true) × Memᴰ hop (neighbors g m upstream)
  unfolding elem hops_of
  node_of_hop [] hop i = absurd (Memᴰ.not-nil i)
  node_of_hop (n ∷ nodes) hop i = elim (Memᴰ.append_cases (neighbors g n upstream) i) [
    | inl here ↦ (n, ground (arith, eq_iff n n), here)
    | inr there ↦ let (m, e, j) = node_of_hop nodes hop there in (m, ground arith, j)
  ]

  module _ (pruned : HopRecord → Bool) where
    source_of_hop :
        (hops : List HopRecord) (hop : HopRecord)
        → Memᴰ hop hops
        → pruned hop ≡ false
        → (elem hop.src_node_id (sources pruned hops) ≡ true)
          × (elem (edge_key hop) (edge_keys pruned hops) ≡ true)
    unfolding sources edge_keys elem
    source_of_hop [] hop i kept = absurd (Memᴰ.not-nil i)
    source_of_hop (h ∷ hops) hop i kept = elim (Memᴰ.cases_cons i) [
      | inl e ↦ rw (sym e, kept) (elem-cons_self hop.src_node_id _, elem-cons_self (edge_key hop) _)
      | inr j ↦ let (a, b) = source_of_hop hops hop j kept in (ground arith, ground arith)
    ]

    hop_of_source :
        (hops : List HopRecord) (s : String)
        → elem s (sources pruned hops) ≡ true
        → (hop : HopRecord) × Memᴰ hop hops × (pruned hop ≡ false) × (s ≡ hop.src_node_id)
    unfolding sources elem
    hop_of_source [] s e = cc
    hop_of_source (hop ∷ hops) s e = elim (Bool-cases (not (pruned hop) && s == hop.src_node_id)) [
      | inl q ↦ (hop, Memᴰ.head refl, ground arith, (eq_iff s hop.src_node_id).0 (ground arith))
      | inr q ↦
          let (h, i, kept, same) = hop_of_source hops s (ground arith) in
          (h, Memᴰ.tail i, kept, same)
    ]

    module _ (target : String) where
      -- A chain of this many hops that are not pruned leads from the node to the target.
      pub data Upstream : ℕ → String → Type 0 where
        at_target : Upstream 0 target
        back :
            {k : ℕ} {m : String} (hop : HopRecord)
            → Upstream k m
            → Memᴰ hop (neighbors g m upstream)
            → pruned hop ≡ false
            → Upstream (suc k) hop.src_node_id

      -- What the walk knows when the frontier lies at this depth.
      pub record IsLevelled (depth : ℕ) (w : Walk) : Type 0 where
        pub frontier : (s : String) → elem s w.next_frontier ≡ true → Upstream depth s
        pub far : (s : String) (k : ℕ) → elem s w.next_frontier ≡ true → Upstream k s → depth ≤ k
        pub complete : (k : ℕ) (s : String) → Upstream k s → k ≤ depth → elem s w.visited ≡ true
        pub reached : (s : String) → elem s w.visited ≡ true → (k : ℕ) × (k ≤ depth) × Upstream k s
        pub closed :
            (m : String) (hop : HopRecord)
            → elem m w.visited ≡ true
            → elem m w.next_frontier ≡ false
            → Memᴰ hop (neighbors g m upstream)
            → pruned hop ≡ false
            → (elem hop.src_node_id w.visited ≡ true)
              × (elem (edge_key hop) (keys_of w.all_edges) ≡ true)
        pub shallow :
            (n : BacktrackNode)
            → Memᴰ n w.all_nodes
            → Upstream n.depth n.node_id × ((k : ℕ) → Upstream k n.node_id → n.depth ≤ k)
        pub ids_kept : ids w.all_nodes ≡ w.visited
        pub once : distinct w.visited ≡ true

      true_right : (b : Bool) → (b || true) ≡ true
      true_right b = ground arith

      true_left : {a : Bool} (b : Bool) → a ≡ true → (a || b) ≡ true
      true_left b h = rw h

      was_met : (a b c d : Bool) → a ≡ (b || c) → d ≡ (c && not b) → a ≡ true → d ≡ false → b ≡ true
      was_met a b c d e f g h = ground arith

      fresh_source : (a b c : Bool) → a ≡ (b && not c) → a ≡ true → (b ≡ true) × (c ≡ false)
      fresh_source a b c e h = ground arith

      split_or : (a b c : Bool) → a ≡ (b || c) → a ≡ true → (b ≡ true) ⊎ ((b ≡ false) × (c ≡ true))
      split_or a b c e h = ground arith

      module _ (depth : ℕ) (w : Walk) (nodes : List String)
          (same : (s : String) → elem s nodes ≡ elem s w.next_frontier)
          (h : IsLevelled depth w) where
        after : Walk
        after = sweep g pruned (suc depth) nodes (begin_level w)

        hops : List HopRecord
        hops = hops_of g nodes

        after-visited :
            (s : String) → elem s after.visited ≡ (elem s w.visited || elem s (sources pruned hops))
        unfolding after hops begin_level
        after-visited s =
            rw (sweep-visit_all pruned (suc depth) g nodes (begin_level w))
              (visit_all-visited pruned (suc depth) (hops_of g nodes) (begin_level w) s)

        after-next :
            (s : String)
            → elem s after.next_frontier ≡ (elem s (sources pruned hops) && not (elem s w.visited))
        unfolding after hops begin_level elem
        after-next s =
            rw (sweep-visit_all pruned (suc depth) g nodes (begin_level w))
              (visit_all-next pruned (suc depth) (hops_of g nodes) (begin_level w) s)

        after-seen : (s : String) → elem s after.seen_edges ≡ elem s (edge_keys pruned hops)
        unfolding after hops begin_level elem
        after-seen s =
            rw (sweep-visit_all pruned (suc depth) g nodes (begin_level w))
              (visit_all-seen pruned (suc depth) (hops_of g nodes) (begin_level w) s)

        after-IsKept : IsKept w.all_nodes w.all_edges after
        unfolding after begin_level keys_of
        after-IsKept = rw (sweep-visit_all pruned (suc depth) g nodes (begin_level w)) (
            visit_all-IsKept w.all_nodes w.all_edges pruned (suc depth) (hops_of g nodes)
              (begin_level w)
              (record {
                nodes_kept = sym (append-nil w.all_nodes);
                edges_kept = sym (append-nil w.all_edges);
                ids_kept = h.ids_kept;
                keys_kept = refl;
                once = h.once;
              }))

        source_is_Upstream :
            (s : String) → elem s (sources pruned hops) ≡ true → Upstream (suc depth) s
        unfolding hops
        source_is_Upstream s e =
            let (hop, i, kept, is_source) = hop_of_source (hops_of g nodes) s e in
            let (m, e', j) = node_of_hop nodes hop i in
            rw is_source (back hop (h.frontier m (sym (same m) ∙ e')) j kept)

        frontier_hop :
            (m : String) (hop : HopRecord)
            → elem m w.next_frontier ≡ true
            → Memᴰ hop (neighbors g m upstream)
            → pruned hop ≡ false
            → (elem hop.src_node_id (sources pruned hops) ≡ true)
              × (elem (edge_key hop) (edge_keys pruned hops) ≡ true)
        unfolding hops
        frontier_hop m hop e i kept =
            source_of_hop (hops_of g nodes) hop (hops_of_node nodes m hop (same m ∙ e) i) kept

        frontier_key :
            (m : String) (hop : HopRecord)
            → elem m w.next_frontier ≡ true
            → Memᴰ hop (neighbors g m upstream)
            → pruned hop ≡ false
            → elem (edge_key hop) (keys_of after.all_edges) ≡ true
        frontier_key m hop e i kept =
            let (_, key) = frontier_hop m hop e i kept in
            rw (
              after-IsKept.edges_kept,
              keys_of-append w.all_edges after.level_transformations,
              elem-append (edge_key hop) (keys_of w.all_edges)
                  (keys_of after.level_transformations),
              after-IsKept.keys_kept,
              after-seen (edge_key hop),
              key,
              true_right _,
            )

        older_key :
            (k : String)
            → elem k (keys_of w.all_edges) ≡ true
            → elem k (keys_of after.all_edges) ≡ true
        older_key k e =
            rw
              (
                after-IsKept.edges_kept,
                keys_of-append w.all_edges after.level_transformations,
                elem-append k (keys_of w.all_edges) (keys_of after.level_transformations),
              )
              (true_left _ e)

        older_node : (s : String) → elem s w.visited ≡ true → elem s after.visited ≡ true
        older_node s e = rw (after-visited s) (true_left _ e)

        newer_node :
            (s : String) → elem s (sources pruned hops) ≡ true → elem s after.visited ≡ true
        newer_node s e = rw (after-visited s, e) (true_right _)

        -- The source of a hop that leads to a node met before.
        met_source :
            (m : String) (hop : HopRecord)
            → elem m w.visited ≡ true
            → Memᴰ hop (neighbors g m upstream)
            → pruned hop ≡ false
            → (elem hop.src_node_id after.visited ≡ true)
              × (elem (edge_key hop) (keys_of after.all_edges) ≡ true)
        met_source m hop e i kept = elim (Bool-cases (elem m w.next_frontier)) [
          | inl f ↦
              let (source, _) = frontier_hop m hop f i kept in
              (newer_node hop.src_node_id source, frontier_key m hop f i kept)
          | inr f ↦
              let (source, key) = h.closed m hop e f i kept in
              (older_node hop.src_node_id source, older_key (edge_key hop) key)
        ]

        fresh_is_far :
            (s : String) (k : ℕ) → elem s w.visited ≡ false → Upstream k s → suc depth ≤ k
        fresh_is_far s k fresh u = elim (Bool-cases (leb k depth)) [
          | inl le ↦ cc (fresh, h.complete k s u (leb→le k depth le))
          | inr gt ↦ omega (arith, leb_false→lt k depth gt)
        ]

        after_complete :
            (k : ℕ) (s : String) → Upstream k s → k ≤ suc depth → elem s after.visited ≡ true
        after_complete zero s u le = older_node s (h.complete zero s u (omega arith))
        after_complete (suc k) s (back {m = m} hop u i kept) le =
            let (source, _) = met_source m hop (h.complete k m u (omega arith)) i kept in source

        after-closed :
            (m : String) (hop : HopRecord)
            → elem m after.visited ≡ true
            → elem m after.next_frontier ≡ false
            → Memᴰ hop (neighbors g m upstream)
            → pruned hop ≡ false
            → (elem hop.src_node_id after.visited ≡ true)
              × (elem (edge_key hop) (keys_of after.all_edges) ≡ true)
        after-closed m hop e f i kept =
            met_source m hop (was_met _ _ _ _ (after-visited m) (after-next m) e f) i kept

        pub after-IsLevelled :
            IsLevelled (suc depth) (sweep g pruned (suc depth) nodes (begin_level w))
        unfolding after hops begin_level
        after-IsLevelled = record {
          frontier = λ s e.
              let (source, _) = fresh_source _ _ _ (after-next s) e in source_is_Upstream s source;
          far = λ s k e u.
              let (_, fresh) = fresh_source _ _ _ (after-next s) e in fresh_is_far s k fresh u;
          complete = after_complete;
          reached = λ s e. elim (split_or _ _ _ (after-visited s) e) [
            | inl old ↦ let (k, le, u) = h.reached s old in (k, omega arith, u)
            | inr (_, source) ↦ (suc depth, omega arith, source_is_Upstream s source)
          ];
          closed = after-closed;
          shallow = λ n i.
              let i' = rw (sweep-visit_all pruned (suc depth) g nodes (begin_level w)) at i in
              elim (visit_all-nodes pruned (suc depth) (hops_of g nodes) (begin_level w) n i') [
                | inl old ↦ h.shallow n old
                | inr (d, source, fresh) ↦ (
                  rw d (source_is_Upstream n.node_id source),
                  λ k u. omega (arith, d, fresh_is_far n.node_id k fresh u),
                )
              ];
          ids_kept = after-IsKept.ids_kept;
          once = after-IsKept.once;
        }

        pub after-extends :
            ((sweep g pruned (suc depth) nodes (begin_level w)).all_nodes
              ≡ w.all_nodes ++ (sweep g pruned (suc depth) nodes (begin_level w)).level_columns)
            × ((sweep g pruned (suc depth) nodes (begin_level w)).all_edges
                ≡ w.all_edges
                  ++ (sweep g pruned (suc depth) nodes (begin_level w)).level_transformations)
        unfolding after
        after-extends = (after-IsKept.nodes_kept, after-IsKept.edges_kept)
