-- ===== src/Sublineage/Backtrack/Complete/Result.antt =====
-- The result of backtrack_from_target in transformation_lineage/sublineage/backtrack.py.
use mathlib.Core.List.{Memᴰ, append-nil, append_assoc}
use mathlib.Core.List.Memᴰ
use mathlib.Core.Path.{subst}
use bricktrace.Prelude.{
  distinct, ℕ, zero, suc, ◌+◌, ◌≤◌, ◌<◌, String, Bool, true, false, eq_iff, List, [], ◌∷◌, ◌++◌,
  Option, some, elem, length, map, ◌≡◌, ◌↔◌, refl, sym, ap, ◌∙◌, arith, inl, inr, Bool-cases,
  List-cases,
}
use bricktrace.Sublineage.Graph.{HopRecord, SublineageGraph, upstream, neighbors, has_node}
use bricktrace.Sublineage.Bfs.Expand.{KeepsElements}
use bricktrace.Sublineage.Backtrack.{
  BacktrackNode, BacktrackEdge, BacktrackLevel, BacktrackResult, Walk, edge_key, sweep, begin_level,
  level_of, kept_level, loop, if_empty, start, target_node, assemble, backtrack_from_target,
  compile_table_patterns, should_prune_hop, lowered, result, mark, mark_level, is_root,
}
use bricktrace.Sublineage.Backtrack.Sweep.{ids}
use bricktrace.Sublineage.Backtrack.Levels.{keys_of}
use bricktrace.Sublineage.Backtrack.Complete.{
  Upstream, at_target, back, IsLevelled, after-IsLevelled, after-extends,
}

-- The columns and the edges of all levels.
unfoldable pub columns_of : List BacktrackLevel → List BacktrackNode
columns_of [] = []
columns_of (l ∷ ls) = l.columns ++ columns_of ls

unfoldable pub edges_of : List BacktrackLevel → List BacktrackEdge
edges_of [] = []
edges_of (l ∷ ls) = l.transformations ++ edges_of ls

if_empty_nil {ℓ} : {A : Type ℓ} (l : List String) (x y : A) → l ≡ [] → if_empty l x y ≡ x
unfolding if_empty
if_empty_nil l x y e = rw e

if_empty_cons {ℓ} :
    {A : Type ℓ} (l : List String) (x y : A) (n : String) (ns : List String)
    → l ≡ n ∷ ns
    → if_empty l x y ≡ y
unfolding if_empty
if_empty_cons l x y n ns e = rw e

columns-kept_level :
    (depth : ℕ) (ns : List BacktrackNode) (es : List BacktrackEdge) (levels : List BacktrackLevel)
    → (columns_of (kept_level depth ns es ++ levels) ≡ ns ++ columns_of levels)
      × (edges_of (kept_level depth ns es ++ levels) ≡ es ++ edges_of levels)
unfolding columns_of edges_of kept_level
columns-kept_level depth [] [] levels = (refl, refl)
columns-kept_level depth [] (e ∷ es) levels = (refl, refl)
columns-kept_level depth (n ∷ ns) es levels = (refl, refl)

map-columns_of :
    (g : SublineageGraph) (ls : List BacktrackLevel)
    → columns_of (map (mark_level g) ls) ≡ map (mark g) (columns_of ls)
unfolding columns_of mark_level
map-columns_of g [] = refl
map-columns_of g (l ∷ ls) =
    ap (λ ns. map (mark g) l.columns ++ ns) (map-columns_of g ls) ∙ sym (map_over_append l.columns)
  where
    map_over_append :
        (ns : List BacktrackNode)
        → map (mark g) (ns ++ columns_of ls) ≡ map (mark g) ns ++ map (mark g) (columns_of ls)
    map_over_append [] = refl
    map_over_append (n ∷ ns) = ap (◌∷◌ (mark g n)) (map_over_append ns)

map-edges_of :
    (g : SublineageGraph) (ls : List BacktrackLevel)
    → edges_of (map (mark_level g) ls) ≡ edges_of ls
unfolding edges_of mark_level
map-edges_of g [] = refl
map-edges_of g (l ∷ ls) = ap (λ es. l.transformations ++ es) (map-edges_of g ls)

ids-map-mark : (g : SublineageGraph) (ns : List BacktrackNode) → ids (map (mark g) ns) ≡ ids ns
unfolding ids mark
ids-map-mark g [] = refl
ids-map-mark g (n ∷ ns) = ap (◌∷◌ n.node_id) (ids-map-mark g ns)

length-map-mark :
    (g : SublineageGraph) (ns : List BacktrackNode) → length (map (mark g) ns) ≡ length ns
length-map-mark g [] = refl
length-map-mark g (n ∷ ns) = ap suc (length-map-mark g ns)

unmarked :
    (g : SublineageGraph) (ns : List BacktrackNode) (n : BacktrackNode)
    → Memᴰ n (map (mark g) ns)
    → (m : BacktrackNode) × Memᴰ m ns × (n ≡ mark g m)
unmarked g [] n i = absurd (Memᴰ.not-nil i)
unmarked g (m ∷ ns) n i = elim (Memᴰ.cases_cons i) [
  | inl e ↦ (m, Memᴰ.head refl, e)
  | inr j ↦ let (k, at, e) = unmarked g ns n j in (k, Memᴰ.tail at, e)
]

module _ (g : SublineageGraph) (pruned : HopRecord → Bool) (target : String) where
  -- What a walk over this many levels has found: every node within that distance, once and at its
  -- shortest distance, and every edge into a node at a smaller distance.
  record IsFound (limit : ℕ) (w : Walk) : Type 0 where
    complete :
        (k : ℕ) (s : String) → Upstream g pruned target k s → k ≤ limit → elem s w.visited ≡ true
    reached :
        (s : String)
        → elem s w.visited ≡ true
        → (k : ℕ) × (k ≤ limit) × Upstream g pruned target k s
    captured :
        (k : ℕ) (m : String) (hop : HopRecord)
        → Upstream g pruned target k m
        → k < limit
        → Memᴰ hop (neighbors g m upstream)
        → pruned hop ≡ false
        → elem (edge_key hop) (keys_of w.all_edges) ≡ true
    shallow :
        (n : BacktrackNode)
        → Memᴰ n w.all_nodes
        → Upstream g pruned target n.depth n.node_id
          × ((k : ℕ) → Upstream g pruned target k n.node_id → n.depth ≤ k)
    ids_kept : ids w.all_nodes ≡ w.visited
    once : distinct w.visited ≡ true

  at_limit : (depth : ℕ) (w : Walk) → IsLevelled g pruned target depth w → IsFound depth w
  at_limit depth w h = record {
    complete = h.complete;
    reached = h.reached;
    shallow = h.shallow;
    ids_kept = h.ids_kept;
    once = h.once;
    captured = λ k m hop u lt i kept. elim (Bool-cases (elem m w.next_frontier)) [
      | inl f ↦ absurd (omega (arith, h.far m k f u))
      | inr f ↦ (h.closed m hop (h.complete k m u (omega arith)) f i kept).1
    ];
  }

  -- With an empty frontier the walk has everything.
  none_of : {l : List String} → l ≡ [] → (s : String) → elem s l ≡ false
  unfolding elem
  none_of e s = rw e

  everything :
      (depth : ℕ) (w : Walk)
      → IsLevelled g pruned target depth w
      → w.next_frontier ≡ []
      → (k : ℕ) (s : String) → Upstream g pruned target k s
      → elem s w.visited ≡ true
  everything depth w h e zero s u = h.complete zero s u (omega arith)
  everything depth w h e (suc k) s (back {m = m} hop u i kept) =
      (h.closed m hop (everything depth w h e k m u) (none_of e m) i kept).0

  IsFound-all :
      (limit depth : ℕ) (w : Walk)
      → depth ≤ limit
      → IsLevelled g pruned target depth w
      → w.next_frontier ≡ []
      → IsFound limit w
  IsFound-all limit depth w le h e = record {
    complete = λ k s u _. everything depth w h e k s u;
    reached = λ s v. let (k, le', u) = h.reached s v in (k, omega arith, u);
    captured = λ k m hop u _ i kept.
        (h.closed m hop (everything depth w h e k m u) (none_of e m) i kept).1;
    shallow = h.shallow;
    ids_kept = h.ids_kept;
    once = h.once;
  }

  -- What is known of a walk over the levels from `w` on and of the levels that it adds.
  IsDone : ℕ → Walk → Walk × List BacktrackLevel → Type 0
  IsDone limit w (last, levels) =
      IsFound limit last
      × (last.all_nodes ≡ w.all_nodes ++ columns_of levels)
      × (last.all_edges ≡ w.all_edges ++ edges_of levels)

  module _ (order : List String → List String) (keeps : KeepsElements order) where
    loop-IsDone :
        (left depth : ℕ) (w : Walk)
        → IsLevelled g pruned target depth w
        → IsDone (depth + left) w (loop order g pruned left (suc depth) w)
    unfolding loop columns_of edges_of IsDone level_of
    loop-IsDone zero depth w h = (
      subst (λ n. IsFound n w) (omega arith) (at_limit depth w h),
      sym (append-nil w.all_nodes),
      sym (append-nil w.all_edges),
    )
    loop-IsDone (suc left) depth w h =
        let swept = sweep g pruned (suc depth) (order w.next_frontier) (begin_level w) in
        let next =
          after-IsLevelled g pruned target depth w (order w.next_frontier)
            (λ s. keeps s w.next_frontier) h in
        let (nodes, edges) =
          after-extends g pruned target depth w (order w.next_frontier)
            (λ s. keeps s w.next_frontier) h in
        let (found, more_nodes, more_edges) = loop-IsDone left (suc depth) swept next in
        let rest = loop order g pruned left (suc (suc depth)) swept in
        let at_level =
          columns-kept_level (suc depth) swept.level_columns swept.level_transformations rest.1 in
        elim (List-cases w.next_frontier) [
          | inl e ↦ subst (IsDone (depth + suc left) w) (sym (if_empty_nil w.next_frontier _ _ e)) (
            IsFound-all _ depth w (omega arith) h e,
            sym (append-nil w.all_nodes),
            sym (append-nil w.all_edges),
          )
          | inr (n, ns, e) ↦
              subst (IsDone (depth + suc left) w) (sym (if_empty_cons w.next_frontier _ _ n ns e)) (
                subst (λ n. IsFound n rest.0) (omega arith) found,
                more_nodes
                    ∙ ap (λ l. l ++ columns_of rest.1) nodes
                    ∙ append_assoc w.all_nodes _ _
                    ∙ ap (λ l. w.all_nodes ++ l) (sym at_level.0),
                more_edges
                    ∙ ap (λ l. l ++ edges_of rest.1) edges
                    ∙ append_assoc w.all_edges _ _
                    ∙ ap (λ l. w.all_edges ++ l) (sym at_level.1),
              )
        ]

  start-IsLevelled : IsLevelled g pruned target 0 (start target)
  unfolding start ids elem distinct target_node
  start-IsLevelled = record {
    frontier = λ s e. rw ((eq_iff s target).0 (ground arith)) at_target;
    far = λ s k e u. omega arith;
    complete = λ k s u le. at_start k s u le;
    reached = λ s e. (0, omega arith, rw ((eq_iff s target).0 (ground arith)) at_target);
    closed = λ m hop e f i kept. ground arith;
    shallow = λ n i. rw (Memᴰ.eq_of_singleton i) (at_target, λ k u. omega arith);
    ids_kept = refl;
    once = refl;
  }
    where
      at_start :
          (k : ℕ) (s : String)
          → Upstream g pruned target k s
          → k ≤ 0
          → elem s (start target).visited ≡ true
      at_start zero s at_target le = ground (arith, eq_iff target target)
      at_start (suc k) s u le = absurd (omega arith)

  -- The result holds the nodes within the given distance of the target, each once, at its shortest
  -- distance and marked as a source where nothing leads to it, and the edges that lead to the
  -- nodes at smaller distances; the totals count them.
  pub record IsExact (limit : ℕ) (r : BacktrackResult) : Type 0 where
    nodes_found :
        (s : String)
        → (elem s (ids (columns_of r.levels)) ≡ true)
          ↔ ((k : ℕ) × (k ≤ limit) × Upstream g pruned target k s)
    nodes_once : distinct (ids (columns_of r.levels)) ≡ true
    shortest :
        (n : BacktrackNode)
        → Memᴰ n (columns_of r.levels)
        → Upstream g pruned target n.depth n.node_id
          × ((k : ℕ) → Upstream g pruned target k n.node_id → n.depth ≤ k)
    sources_marked :
        (n : BacktrackNode)
        → Memᴰ n (columns_of r.levels)
        → n.is_target ≡ false
        → n.is_source ≡ is_root g n.node_id
    edges_found :
        (k : ℕ) (m : String) (hop : HopRecord)
        → Upstream g pruned target k m
        → k < limit
        → Memᴰ hop (neighbors g m upstream)
        → pruned hop ≡ false
        → elem (edge_key hop) (keys_of (edges_of r.levels)) ≡ true
    node_total : r.total_nodes ≡ length (columns_of r.levels)
    edge_total : r.total_edges ≡ length (edges_of r.levels)

  source_of_mark :
      (m : BacktrackNode)
      → (mark g m).is_target ≡ false
      → (mark g m).is_source ≡ is_root g m.node_id
  unfolding mark
  source_of_mark m h = rw h

  IsExact-of_found :
      (limit : ℕ) (w : Walk) (r : BacktrackResult)
      → IsFound limit w
      → columns_of r.levels ≡ map (mark g) w.all_nodes
      → edges_of r.levels ≡ w.all_edges
      → r.total_nodes ≡ length w.all_nodes
      → r.total_edges ≡ length w.all_edges
      → IsExact limit r
  unfolding mark
  IsExact-of_found limit w r f cols edges nodes_counted edges_counted = record {
    nodes_found = λ s.
        rw (cols, ids-map-mark g w.all_nodes, f.ids_kept)
          (f.reached s, λ reach. let (k, le, u) = reach in f.complete k s u le);
    nodes_once = rw (cols, ids-map-mark g w.all_nodes, f.ids_kept) f.once;
    shortest = λ n i.
        let (m, j, same) = unmarked g w.all_nodes n (rw cols at i) in rw same (f.shallow m j);
    sources_marked = λ n i.
        let (m, j, same) = unmarked g w.all_nodes n (rw cols at i) in rw same (source_of_mark m);
    edges_found = λ k m hop u lt i kept. rw edges (f.captured k m hop u lt i kept);
    node_total = nodes_counted ∙ sym (length-map-mark g w.all_nodes) ∙ ap length (sym cols);
    edge_total = edges_counted ∙ ap length (sym edges);
  }

module _ {ℓ} {Pattern : Type ℓ} (compile : String → Option Pattern) (lower : String → String)
    (search : Pattern → String → Bool) (order : List String → List String)
    (keeps : KeepsElements order) (g : SublineageGraph) (target : String) (limit : ℕ) where
  assemble-IsExact :
      (pruned : HopRecord → Bool)
      → IsExact g pruned target limit (assemble compile lower search order g target limit pruned)
  unfolding assemble columns_of edges_of start IsDone target_node mark_level mark
  assemble-IsExact pruned =
      let (found, nodes, edges) =
        loop-IsDone g pruned target order keeps limit 0 (start target)
          (start-IsLevelled g pruned target) in
      let levels = (loop order g pruned limit 1 (start target)).1 in
      IsExact-of_found g pruned target limit (loop order g pruned limit 1 (start target)).0
        (assemble compile lower search order g target limit pruned)
        (subst (λ n. IsFound g pruned target n (loop order g pruned limit 1 (start target)).0)
          (omega arith) found)
        (ap (◌∷◌ (mark g (target_node target))) (map-columns_of g levels)
          ∙ ap (map (mark g)) (sym nodes))
        (map-edges_of g levels ∙ sym edges) refl refl

  -- For every graph, every order in which sets are visited and every choice of patterns that
  -- compile and of categories: a target that is in the graph gives a result, and the result holds
  -- exactly the nodes within `limit` hops upstream of it over the hops that are not pruned, each
  -- once, at its shortest distance, marked as a source where the graph has no hop to it; it holds
  -- an edge with the key of each such hop to a node at a smaller distance; its totals count them.
  pub backtrack_from_target-IsExact :
      (exclude include : Option (List String)) (pats : Option (List Pattern))
      → has_node g target ≡ true
      → compile_table_patterns compile exclude ≡ some pats
      → (r : BacktrackResult) × (backtrack_from_target compile lower search order g target limit
            exclude include
          ≡ result r)
        × IsExact g
            (should_prune_hop compile lower search pats (lowered compile lower search include))
            target
            limit
            r
  unfolding backtrack_from_target
  backtrack_from_target-IsExact exclude include pats known compiled =
      let pruned =
        should_prune_hop compile lower search pats (lowered compile lower search include) in
      (
        assemble compile lower search order g target limit pruned,
        rw (known, compiled),
        assemble-IsExact pruned,
      )
