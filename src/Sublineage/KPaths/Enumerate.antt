-- ===== src/Sublineage/KPaths/Enumerate.antt =====
-- The loop over the hops, the recursion, and the function as a whole.
use mathlib.Core.List.{Memᴰ}
use mathlib.Core.List.Memᴰ
use mathlib.Core.Logic.{⊎_elim}
use mathlib.Core.Path.{subst}
use bricktrace.Prelude.{
  ℕ, zero, suc, ◌≤◌, ◌<◌, ◌≡◌, ◌≢◌, sym, ◌⊎◌, inl, inr, String, true, false, ◌==◌, eq_iff, not,
  ◌||◌, List, [], ◌∷◌, ◌++◌, length, elem, elem-cons_self, leb, eqb, leb→le, leb_false→lt, arith,
  if◌then◌else◌, Bool-cases,
}
use bricktrace.Sublineage.Graph.{
  HopRecord, SublineageGraph, downstream, neighbors, has_node, build_graph,
}
use bricktrace.Sublineage.KPaths.{HopPath, Visit, scan, dfs, sort_paths, find_paths}
use bricktrace.Sublineage.KPaths.Search.{
  Simple, IsWay, ByHop, by, Adds, Adds-none, Adds-stop, Adds-then, hit-Adds, deeper-Adds,
  IsPath-nil, no_way_home,
}
use bricktrace.Sublineage.KPaths.Order.{
  IsSorted, length-sort_paths, mem-sort_paths, sort_paths-IsSorted,
}
use bricktrace.Sublineage.Graph.Laws.{build_graph-IsMirrored}
use bricktrace.Sublineage.Bfs.Paths.{IsPath, stay, go, IsPath-cons, has_node_of_path}

module _ (g : SublineageGraph) (dst : String) (max_paths : ℕ) where
  -- What the recursive call promises at one depth.
  abbrev Deep : ℕ → Visit g dst max_paths → Type 0
  Deep bound visit =
      (node : String) (path : HopPath) (visited : List String) (results : List HopPath)
      → node ≢ dst
      → length results < max_paths
      → Adds g dst max_paths path (IsWay g dst max_paths node visited bound) results
          (visit node path visited results)

  ByHop-head :
      (hop : HopRecord) (hops : List HopRecord) (visited : List String) (bound : ℕ) (q : HopPath)
      → ByHop g dst max_paths (hop ∷ []) visited bound q
      → ByHop g dst max_paths (hop ∷ hops) visited bound q
  ByHop-head hop hops visited bound q (by k rest m e w) =
      by k rest (Memᴰ.head (Memᴰ.eq_of_singleton m)) e w

  ByHop-tail :
      (hop : HopRecord) (hops : List HopRecord) (visited : List String) (bound : ℕ) (q : HopPath)
      → ByHop g dst max_paths hops visited bound q
      → ByHop g dst max_paths (hop ∷ hops) visited bound q
  ByHop-tail hop hops visited bound q (by k rest m e w) = by k rest (Memᴰ.tail m) e w

  ByHop-split :
      (hop : HopRecord) (hops : List HopRecord) (visited : List String) (bound : ℕ) (q : HopPath)
      → ByHop g dst max_paths (hop ∷ hops) visited bound q
      → ByHop g dst max_paths (hop ∷ []) visited bound q
        ⊎ ByHop g dst max_paths hops visited bound q
  ByHop-split hop hops visited bound q (by k rest m e w) =
      ⊎_elim (λ s. inl (by k rest (Memᴰ.head s) e w)) (λ t. inr (by k rest t e w))
        (Memᴰ.cases_cons m)

  -- After one hop: stop at the limit, or go on with the other hops.
  go_on :
      (hop : HopRecord) (hops : List HopRecord) (path : HopPath) (visited : List String) (bound : ℕ)
      (results mid rest : List HopPath)
      → Adds g dst max_paths path (ByHop g dst max_paths (hop ∷ []) visited bound) results mid
      → (length mid < max_paths
          → Adds g dst max_paths path (ByHop g dst max_paths hops visited bound) mid rest)
      → Adds g dst max_paths path
          (ByHop g dst max_paths (hop ∷ hops) visited bound)
          results
          (if leb max_paths (length mid) then mid else rest)
  go_on hop hops path visited bound results mid rest a more =
      elim (Bool-cases (leb max_paths (length mid))) [
        | inl full ↦ rw full (
            Adds-stop g dst max_paths path _ _ results mid a (ByHop-head hop hops visited bound)
              (leb→le _ _ full))
        | inr room ↦
            let few = leb_false→lt max_paths (length mid) room in
            rw room (
              Adds-then g dst max_paths path _ _ _ results mid rest a (more few) few
                (ByHop-head hop hops visited bound) (ByHop-tail hop hops visited bound)
                (ByHop-split hop hops visited bound))
      ]

  scan-Adds :
      (bound : ℕ) (visit : Visit g dst max_paths)
      → Deep bound visit
      → (hops : List HopRecord) (path : HopPath) (visited : List String) (results : List HopPath)
      → length results < max_paths
      → Adds g dst max_paths path
          (ByHop g dst max_paths hops visited bound)
          results
          (scan g dst max_paths visit hops path visited results)
  unfolding scan
  scan-Adds bound visit deep [] path visited results room =
      Adds-none g dst max_paths path _ results (λ q f. nowhere q f)
    where
      nowhere : (q : HopPath) → ByHop g dst max_paths [] visited bound q → ⊥
      nowhere q (by k rest m e w) = Memᴰ.not-nil m
  scan-Adds bound visit deep (hop ∷ hops) path visited results room =
      let nxt = hop.dst_node_id in
      let hit = results ++ (path ++ hop ∷ []) ∷ [] in
      let deeper = visit nxt (path ++ hop ∷ []) (nxt ∷ visited) results in
      elim (Bool-cases (elem nxt visited)) [
        | inl old ↦ rw old (
            Adds-then g dst max_paths path (ByHop g dst max_paths (hop ∷ []) visited bound) _ _
              results results _ (Adds-none g dst max_paths path _ results (seen old))
              (scan-Adds bound visit deep hops path visited results room) room
              (ByHop-head hop hops visited bound) (ByHop-tail hop hops visited bound)
              (ByHop-split hop hops visited bound))
        | inr new ↦ elim (Bool-cases (nxt == dst)) [
          | inl home ↦
              rw (new, home)
                (go_on hop hops path visited bound results hit _
                  (hit-Adds g dst max_paths path visited bound hop results new
                    ((eq_iff nxt dst).0 home))
                  (scan-Adds bound visit deep hops path visited hit))
          | inr away ↦
              rw (new, away)
                (go_on hop hops path visited bound results deeper _
                  (deeper-Adds g dst max_paths path visited bound hop results deeper new (
                    deep nxt (path ++ hop ∷ []) (nxt ∷ visited) results
                      (λ q. cc (away, (eq_iff nxt dst).1 q)) room))
                  (scan-Adds bound visit deep hops path visited deeper))
        ]
      ]
    where
      seen :
          elem hop.dst_node_id visited ≡ true
          → (q : HopPath) → ByHop g dst max_paths (hop ∷ []) visited bound q
          → ⊥
      seen old q (by k rest m e w) =
          cc (e, subst (λ x. elem x.dst_node_id visited ≡ true) (sym (Memᴰ.eq_of_singleton m)) old)

  dfs-Deep : (left : ℕ) → Deep left (dfs g dst max_paths left)
  unfolding dfs
  dfs-Deep zero node path visited results away room =
      Adds-none g dst max_paths path _ results (λ q w. away (at_home q w.path w.short))
    where
      at_home : (q : HopPath) → IsPath g dst node q → length q ≤ 0 → node ≡ dst
      at_home [] p h = IsPath-nil g dst max_paths p
      at_home (hop ∷ q) p h = absurd (omega arith)
  dfs-Deep (suc left) node path visited results away room =
      let below : leb max_paths (length results) ≡ false = ground arith in
      let a =
        scan-Adds left (dfs g dst max_paths left) (dfs-Deep left) (neighbors g node downstream) path
          visited results room in
      rw below (record {
        keeps = a.keeps;
        grows = a.grows;
        bounded = a.bounded;
        sound = λ p m. ⊎_elim inl (λ (q, e, f). inr (q, e, to_way q f)) (a.sound p m);
        full = λ q w. a.full q (to_hop q w.path w.simple w.short);
      })
    where
      to_way :
          (q : HopPath)
          → ByHop g dst max_paths (neighbors g node downstream) visited left q
          → IsWay g dst max_paths node visited (suc left) q
      to_way q (by k rest m e w) = record {
        path = go node k m w.path;
        simple = (e, w.simple);
        short = omega (arith, w.short);
      }

      to_hop :
          (q : HopPath)
          → IsPath g dst node q
          → Simple visited q
          → length q ≤ suc left
          → ByHop g dst max_paths (neighbors g node downstream) visited left q
      to_hop [] p s l = absurd (away (IsPath-nil g dst max_paths p))
      to_hop (hop ∷ rest) p s l =
          let (i, p') = IsPath-cons g dst node hop rest p in
          by hop rest i s.0 (record { path = p'; simple = s.1; short = omega arith })

-- What `find_paths` returns for a graph.
pub record IsEnumeration (g : SublineageGraph) (src dst : String) (max_depth max_paths : ℕ)
    (paths : List HopPath) : Type 0 where
  pub few : length paths ≤ max_paths
  pub sound :
      (p : HopPath)
      → Memᴰ p paths
      → IsPath g dst src p × Simple (src ∷ []) p × (length p ≤ max_depth)
  pub full :
      (p : HopPath)
      → IsPath g dst src p
      → Simple (src ∷ []) p
      → length p ≤ max_depth
      → Memᴰ p paths ⊎ (max_paths ≤ length paths)

-- With room for at least one path, the paths that are returned are at most `max_paths`; each leads
-- from the source to the target along hops of the graph, visits no node twice and has at most
-- `max_depth` hops; and every such path is among them, unless `max_paths` of them are.
pub find_paths-IsEnumeration :
    (run : String) (rows : List HopRecord) (src dst : String) (max_depth max_paths : ℕ)
    → 0 < max_paths
    → IsEnumeration
        (build_graph run rows)
        src
        dst
        max_depth
        max_paths
        (find_paths (build_graph run rows) src dst max_depth max_paths)
unfolding find_paths
find_paths-IsEnumeration run rows src dst max_depth max_paths room =
    elim (Bool-cases (src == dst)) [
      | inl same ↦ rw same (at_home ((eq_iff src dst).0 same))
      | inr differ ↦
          let away : src ≢ dst = λ q. cc (differ, (eq_iff src dst).1 q) in
          elim (Bool-cases (not (has_node g src) || not (has_node g dst))) [
            | inl unknown ↦ rw (differ, unknown) (nothing (λ p path. unnamed away unknown p path))
            | inr nodes ↦ elim (Bool-cases (eqb max_paths 0 || eqb max_depth 0)) [
              | inl none_asked ↦ rw (differ, nodes, none_asked) (no_depth away (ground arith))
              | inr asked ↦
                  rw (differ, nodes, asked)
                    (sorted (dfs-Deep g dst max_paths max_depth src [] (src ∷ []) [] away room))
            ]
          ]
    ]
  where
    g : SublineageGraph
    g = build_graph run rows

    Result : List HopPath → Type 0
    Result = IsEnumeration g src dst max_depth max_paths

    at_home : src ≡ dst → Result ([] ∷ [])
    at_home same = record {
      few = omega arith;
      sound = λ p m.
          rw (Memᴰ.eq_of_singleton m)
            (subst (λ x. IsPath g dst x []) (sym same) stay, tt, omega arith);
      full = λ p path simple short. inl (
          Memᴰ.head (
            no_way_home g dst max_paths src p (src ∷ []) (rw same (elem-cons_self dst [])) path
              simple));
    }

    nothing : ((p : HopPath) → IsPath g dst src p → length p ≤ max_depth → ⊥) → Result []
    nothing no_path = record {
      few = omega arith;
      sound = λ p m. absurd (Memᴰ.not-nil m);
      full = λ p path simple short. absurd (no_path p path short);
    }

    unnamed :
        src ≢ dst
        → (not (has_node g src) || not (has_node g dst)) ≡ true
        → (p : HopPath) → IsPath g dst src p
        → length p ≤ max_depth
        → ⊥
    unnamed away unknown p path short =
        let (a, b) = has_node_of_path g (build_graph-IsMirrored run rows) src dst p away path in
        ground arith

    no_depth : src ≢ dst → max_depth ≡ 0 → Result []
    no_depth away e = nothing (λ p path short. away (empty p path short))
      where
        empty : (p : HopPath) → IsPath g dst src p → length p ≤ max_depth → src ≡ dst
        empty [] path short = IsPath-nil g dst max_paths path
        empty (hop ∷ p) path short = absurd (omega arith)

    sorted :
        {more : List HopPath}
        → Adds g dst max_paths [] (IsWay g dst max_paths src (src ∷ []) max_depth) [] more
        → Result (sort_paths more)
    sorted {more} a = record {
      few = omega (arith, a.bounded room, length-sort_paths more);
      sound = λ p m.
          ⊎_elim (λ n. absurd (Memᴰ.not-nil n)) (λ (q, e, w). rw e (w.path, w.simple, w.short))
            (a.sound p ((mem-sort_paths p more).0 m));
      full = λ p path simple short.
          ⊎_elim (λ m. inl ((mem-sort_paths p more).1 m))
            (λ l. inr (omega (arith, length-sort_paths more)))
            (a.full p (record { path = path; simple = simple; short = short }));
    }

-- The paths come in the order of their lengths.
pub find_paths-IsSorted :
    (g : SublineageGraph) (src dst : String) (max_depth max_paths : ℕ)
    → IsSorted (find_paths g src dst max_depth max_paths)
unfolding find_paths
find_paths-IsSorted g src dst max_depth max_paths = elim (Bool-cases (src == dst)) [
  | inl e ↦ rw e (tt, tt)
  | inr e ↦ elim (Bool-cases (not (has_node g src) || not (has_node g dst))) [
    | inl f ↦ rw (e, f) tt
    | inr f ↦ elim (Bool-cases (eqb max_paths 0 || eqb max_depth 0)) [
      | inl h ↦ rw (e, f, h) tt
      | inr h ↦ rw (e, f, h) (sort_paths-IsSorted _)
    ]
  ]
]
