-- ===== src/Sublineage/Bfs/Shortest.antt =====
-- The rounds of the search, and its answer.
use mathlib.Core.List.{reverse}
use bricktrace.Prelude.{
  ℕ, zero, suc, ◌+◌, ◌≤◌, ◌<◌, ◌≡◌, ◌≢◌, refl, ◌⊎◌, inl, inr, String, true, false, ◌==◌, eq_iff,
  ◌||◌, not, none, some, List, ◌++◌, arith, Bool-cases, Option-cases, length, leb, length-append,
}
use bricktrace.Prelude.Dict.{known, lookup}
use bricktrace.Sublineage.Graph.{
  downstream, upstream, HopRecord, SublineageGraph, has_node, build_graph,
}
use bricktrace.Sublineage.Graph.Laws.{IsMirrored, build_graph-IsMirrored}
use bricktrace.Sublineage.Bfs.{
  Parents, Search, Answer, no_path, found, key_error, is_empty, expand, round, loop, answer,
  start_search, shortest_path,
}
use bricktrace.Sublineage.Bfs.Levels.{Walk, Walk-Traced, walk_back-Traced}
use bricktrace.Sublineage.Bfs.Expand.{KeepsElements, start-IsLevel, expand-Expanded}
use bricktrace.Sublineage.Bfs.Paths.{
  length-reverse, IsPath-append, IsPath, stay, IsPath-reverse, length-Walk, IsPath-Walk,
  has_node_of_path,
}
use bricktrace.Sublineage.Bfs.Apart.{
  IsSearch, Apart, LongerThan, Apart-LongerThan, fwd_exhausted, bwd_exhausted,
}

apart_flip :
    (ps qs : Parents)
    → ((n : String) → known ps n ≡ true → known qs n ≡ false)
    → (n : String) → known qs n ≡ true
    → known ps n ≡ false
apart_flip ps qs h n e = elim (Bool-cases (known ps n)) [ inl f ↦ cc (e, h n f) | inr f ↦ f ]

module _ (g : SublineageGraph) (wf : IsMirrored g) (src dst : String) where
  -- How the loop ends: with a shortest meeting, or with no path within the bound.
  pub record Met (max_depth : ℕ) (s : Search) (m : String) : Type 0 where
    pub meeting : s.meeting ≡ some m
    pub sides : IsSearch g wf src dst s
    pub in_fwd : known s.fwd.parents m ≡ true
    pub in_bwd : known s.bwd.parents m ≡ true
    pub within : s.fwd.depth + s.bwd.depth ≤ max_depth
    pub least : (q : List HopRecord) → IsPath g dst src q → s.fwd.depth + s.bwd.depth ≤ length q

  pub record Missed (max_depth : ℕ) (s : Search) : Type 0 where
    pub meeting : s.meeting ≡ none
    pub longer : LongerThan g wf src dst max_depth

  abbrev pub Ended : ℕ → Search → Type 0
  Ended max_depth s = Missed max_depth s ⊎ ((m : String) × Met max_depth s m)

  module _ (order : List String → List String) (keeps : KeepsElements order) where
    -- What one round does: it keeps the sides, adds one to a depth, and either leaves the sides
    -- apart or meets.
    pub record Rounded (s s' : Search) : Type 0 where
      pub sides : IsSearch g wf src dst s'
      pub deeper : s'.fwd.depth + s'.bwd.depth ≡ s.fwd.depth + s.bwd.depth + 1
      pub unmet : s'.meeting ≡ none → Apart g wf src dst s'
      pub met :
          (m : String)
          → s'.meeting ≡ some m
          → (known s'.fwd.parents m ≡ true) × (known s'.bwd.parents m ≡ true)

    round-Rounded :
        (s : Search) → IsSearch g wf src dst s → Apart g wf src dst s → Rounded s (round order g s)
    unfolding round
    round-Rounded s h apart =
        elim (Bool-cases (leb (length s.fwd.frontier) (length s.bwd.frontier))) [
          | inl e ↦
              let x = expand-Expanded g downstream src s.bwd.parents s.fwd order keeps h.fwd in
              rw e (record {
                sides = record { fwd = x.level; bwd = h.bwd };
                deeper = omega (arith, x.deeper);
                unmet = λ q. x.unmet q apart;
                met = x.met;
              })
          | inr e ↦
              let x = expand-Expanded g upstream dst s.fwd.parents s.bwd order keeps h.bwd in
              rw e (record {
                sides = record { fwd = h.fwd; bwd = x.level };
                deeper = omega (arith, x.deeper);
                unmet = λ q.
                    apart_flip (expand order g upstream s.fwd.parents s.bwd).0.parents s.fwd.parents
                      (x.unmet q (apart_flip s.fwd.parents s.bwd.parents apart));
                met = λ m q. let (b, f) = x.met m q in (f, b);
              })
        ]

    pub loop-Ended :
        (max_depth fuel : ℕ) (s : Search)
        → s.fwd.depth + s.bwd.depth + fuel ≡ max_depth
        → s.meeting ≡ none
        → IsSearch g wf src dst s
        → Apart g wf src dst s
        → Ended max_depth (loop order g max_depth fuel s)
    unfolding loop
    loop-Ended max_depth zero s sum e h apart = inl (record {
      meeting = e;
      longer = λ q path. omega (arith, Apart-LongerThan g wf src dst s h apart q path);
    })
    loop-Ended max_depth (suc fuel) s sum e h apart = elim (Bool-cases (is_empty s.fwd.frontier)) [
      | inl p ↦
          rw p (
            inl (record { meeting = e; longer = fwd_exhausted g wf src dst s h apart p max_depth }))
      | inr p ↦ elim (Bool-cases (is_empty s.bwd.frontier)) [
        | inl q ↦
            rw (p, q)
              (inl
                (record { meeting = e; longer = bwd_exhausted g wf src dst s h apart q max_depth }))
        | inr q ↦ elim (Bool-cases (leb max_depth (s.fwd.depth + s.bwd.depth))) [
          | inl deep ↦ absurd (ground arith)
          | inr room ↦
              let x = round-Rounded s h apart in
              elim (Option-cases (round order g s).meeting) [
                | inl none_met ↦
                    rw (p, q, room, none_met)
                      (loop-Ended max_depth fuel (round order g s) (omega (arith, x.deeper))
                        none_met x.sides (x.unmet none_met))
                | inr (m, met) ↦
                    let (f, b) = x.met m met in
                    rw (p, q, room, met)
                      (inr (
                        m,
                        record {
                          meeting = met;
                          sides = x.sides;
                          in_fwd = f;
                          in_bwd = b;
                          within = omega (arith, x.deeper);
                          least = λ r path.
                              omega
                                (arith, x.deeper, Apart-LongerThan g wf src dst s h apart r path);
                        },
                      ))
              ]
        ]
      ]
    ]

-- What the answer promises for the paths from the source to the target.
pub IsShortest : SublineageGraph → String → String → ℕ → Answer → Type 0
IsShortest g src dst max_depth no_path =
    (q : List HopRecord) → IsPath g dst src q → max_depth < length q
IsShortest g src dst max_depth (found p) =
    IsPath g dst src p
    × (length p ≤ max_depth)
    × ((q : List HopRecord) → IsPath g dst src q → length p ≤ length q)
IsShortest g src dst max_depth key_error = ⊥

length-IsPath-append :
    (g : SublineageGraph) (wf : IsMirrored g) {src dst m : String} {p q : List HopRecord} {i j : ℕ}
    → Walk g downstream src m p i
    → Walk g upstream dst m q j
    → IsPath g dst src (reverse p ++ q) × (length (reverse p ++ q) ≡ i + j)
length-IsPath-append g wf {dst} {p} {q} w x = (
  IsPath-append g (IsPath-reverse g w) (IsPath-Walk g wf x),
  omega (arith, length-append (reverse p) q, length-reverse p, length-Walk g w, length-Walk g x),
)

module _ (order : List String → List String) (keeps : KeepsElements order) where
  answer-IsShortest :
      (g : SublineageGraph) (wf : IsMirrored g) (src dst : String) (max_depth : ℕ) (s : Search)
      → Ended g wf src dst max_depth s
      → IsShortest g src dst max_depth (answer order s)
  unfolding answer IsShortest
  answer-IsShortest g wf src dst max_depth s (inl missed) =
      rw (missed.meeting, answer) missed.longer
  answer-IsShortest g wf src dst max_depth s (inr (m, met)) =
      let (p, i, t, le) = met.sides.fwd.traced m met.in_fwd in
      let (q, j, u, le') = met.sides.bwd.traced m met.in_bwd in
      let (path, size) =
        length-IsPath-append g wf (Walk-Traced g downstream t) (Walk-Traced g upstream u) in
      rw
        (
          met.meeting,
          answer,
          walk_back-Traced g downstream s.fwd.depth t le,
          walk_back-Traced g upstream s.bwd.depth u le',
        )
        (path, omega (arith, met.within), λ r walk. omega (arith, met.least r walk))

  shortest_path_mirrored :
      (g : SublineageGraph) (wf : IsMirrored g) (src dst : String) (max_depth : ℕ)
      → IsShortest g src dst max_depth (shortest_path order g src dst max_depth)
  unfolding shortest_path
  shortest_path_mirrored g wf src dst max_depth = elim (Bool-cases (src == dst)) [
    | inl same ↦ rw same (
        unfold IsShortest in
        (rw ((eq_iff src dst).0 same) stay, omega arith, λ q path. omega arith))
    | inr differ ↦
        let apart : src ≢ dst = λ q. cc (differ, (eq_iff src dst).1 q) in
        elim (Bool-cases (not (has_node g src) || not (has_node g dst))) [
          | inl unknown ↦
              rw (differ, unknown)
                (unfold IsShortest in
                  λ q path. absurd (missing unknown (has_node_of_path g wf src dst q apart path)))
          | inr nodes ↦
              rw (differ, nodes)
                (answer-IsShortest g wf src dst max_depth
                  (loop order g max_depth max_depth (start_search order src dst))
                  (loop-Ended g wf src dst order keeps max_depth max_depth
                    (start_search order src dst) (omega arith) refl
                    (record {
                      fwd = start-IsLevel g downstream src;
                      bwd = start-IsLevel g upstream dst;
                    })
                    (λ n f.
                      unfold known lookup in
                      ground (arith, eq_iff n src, eq_iff n dst, eq_iff src dst))))
        ]
  ]
    where
      missing :
          (not (has_node g src) || not (has_node g dst)) ≡ true
          → (has_node g src ≡ true) × (has_node g dst ≡ true)
          → ⊥
      missing e (a, b) = ground arith

  -- For every graph that is built from rows and every order in which sets are visited, the search
  -- ends with no missing key; a path it returns leads from the source to the target along hops of
  -- the graph, has at most `max_depth` hops, and no path has fewer; and where it returns none,
  -- every path has more than `max_depth` hops.
  pub shortest_path-IsShortest :
      (run : String) (rows : List HopRecord) (src dst : String) (max_depth : ℕ)
      → IsShortest
          (build_graph run rows)
          src
          dst
          max_depth
          (shortest_path order (build_graph run rows) src dst max_depth)
  shortest_path-IsShortest run rows src dst max_depth =
      shortest_path_mirrored (build_graph run rows) (build_graph-IsMirrored run rows) src dst
        max_depth
