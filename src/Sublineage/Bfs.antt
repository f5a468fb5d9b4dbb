-- ===== src/Sublineage/Bfs.antt =====
-- transformation_lineage/sublineage/bfs.py: bidirectional breadth-first search. A `for` over a
-- Python set visits its elements in an order that is not specified: `order` is that order, and the
-- theorems hold for every `order` that keeps the elements. A frontier is a set that only ever gains
-- nodes not seen before, so its list has no repetitions and its length is the set's.
pub mod Levels
pub mod Expand
pub mod Paths
pub mod Apart
pub mod Shortest
use bricktrace.Prelude.{
  ℕ, zero, suc, ◌+◌, String, Bool, true, false, ◌==◌, not, ◌&&◌, ◌||◌, List, [], ◌∷◌, ◌++◌, length,
  Option, none, some, elem, leb, if◌then◌else◌,
}
use mathlib.Core.List.{reverse}
use mathlib.Core.Option
use bricktrace.Prelude.Dict.{Dict, lookup, insert, known}
use bricktrace.Sublineage.Graph.{
  Direction, downstream, upstream, HopRecord, SublineageGraph, neighbors, has_node, far_end,
}

-- `(parent, hop)`, or `(None, None)` at the root.
abbrev pub Parents : Type 0
Parents = Dict (Option (String × HopRecord))

-- One of the two searches.
pub record Side : Type 0 where
  pub parents : Parents
  pub frontier : List String
  pub depth : ℕ

abbrev pub start : String → Side
start root = record { parents = (root, none) ∷ []; frontier = root ∷ []; depth = 0 }

-- What a round builds up: the parents, the next frontier and the meeting node.
pub record Round : Type 0 where
  pub parents : Parents
  pub next_frontier : List String
  pub meeting : Option String

-- `if nxt in other and meeting is None: meeting = nxt`
unfoldable pub meet : Parents → String → Option String → Option String
meet other nxt (some m) = some m
meet other nxt none = if known other nxt then some nxt else none

-- The body of the loop over the hops of `node`.
unfoldable pub offer : Direction → Parents → String → Round → HopRecord → Round
unfolding meet
offer d other node r hop =
    let nxt = far_end d hop in
    if known r.parents nxt then r else record {
      parents = insert nxt (some (node, hop)) r.parents;
      next_frontier = r.next_frontier ++ nxt ∷ [];
      meeting = meet other nxt r.meeting;
    }

unfoldable pub offer_all : Direction → Parents → String → List HopRecord → Round → Round
offer_all d other node [] r = r
offer_all d other node (hop ∷ hops) r = offer_all d other node hops (offer d other node r hop)

unfoldable pub sweep : SublineageGraph → Direction → Parents → List String → Round → Round
sweep g d other [] r = r
sweep g d other (node ∷ nodes) r =
    sweep g d other nodes (offer_all d other node (neighbors g node d) r)

pub record Search : Type 0 where
  pub fwd : Side
  pub bwd : Side
  pub meeting : Option String

-- `None`, a path, or the exception of a missing key.
pub data Answer : Type 0 where
  no_path : Answer
  found : List HopRecord → Answer
  key_error : Answer

-- The loop that follows the parents from the meeting node to the root. Its fuel is the depth of the
-- side: no chain of parents is longer.
unfoldable pub walk_back : ℕ → Parents → String → Option (List HopRecord)
walk_back zero parents cur = elim (lookup cur parents) [ some none ↦ some [] | _ ↦ none ]
walk_back (suc fuel) parents cur = elim (lookup cur parents) [
  | none ↦ none
  | some none ↦ some []
  | some (some (parent, hop)) ↦ Option.map (◌∷◌ hop) (walk_back fuel parents parent)
]

unfoldable pub is_empty : List String → Bool
is_empty [] = true
is_empty (x ∷ xs) = false

module _ (order : List String → List String) where
  -- One level of one search: the side afterwards, and the meeting node.
  unfoldable pub expand : SublineageGraph → Direction → Parents → Side → Side × Option String
  expand g d other s =
      let r =
        sweep g d other (order s.frontier)
          (record { parents = s.parents; next_frontier = []; meeting = none }) in
      (record { parents = r.parents; frontier = r.next_frontier; depth = s.depth + 1 }, r.meeting)

  -- One round of the `while` loop, past its tests. The meeting node is none before it.
  unfoldable pub round : SublineageGraph → Search → Search
  unfolding expand
  round g s =
      let (fwd', m) = expand g downstream s.bwd.parents s.fwd in
      let (bwd', n) = expand g upstream s.fwd.parents s.bwd in
      if leb (length s.fwd.frontier) (length s.bwd.frontier)
      then record { fwd = fwd'; bwd = s.bwd; meeting = m }
      else record { fwd = s.fwd; bwd = bwd'; meeting = n }

  unfoldable pub loop : SublineageGraph → ℕ → ℕ → Search → Search
  unfolding is_empty
  loop g max_depth zero s = s
  loop g max_depth (suc fuel) s =
      let s' = round g s in
      let rest = loop g max_depth fuel s' in
      if is_empty s.fwd.frontier || is_empty s.bwd.frontier
      then s
      else if leb max_depth (s.fwd.depth + s.bwd.depth)
      then s
      else elim s'.meeting [ some m ↦ s' | none ↦ rest ]

  joined : Option (List HopRecord) → Option (List HopRecord) → Answer
  joined (some p) (some q) = found (reverse p ++ q)
  joined _ _ = key_error

  unfoldable pub answer : Search → Answer
  unfolding joined
  answer s = elim s.meeting [
    | none ↦ no_path
    | some m ↦
        joined (walk_back s.fwd.depth s.fwd.parents m) (walk_back s.bwd.depth s.bwd.parents m)
  ]

  abbrev pub start_search : String → String → Search
  start_search src dst = record { fwd = start src; bwd = start dst; meeting = none }

  -- The rounds are at most `max_depth`, since each adds one to a depth.
  unfoldable pub shortest_path : SublineageGraph → String → String → ℕ → Answer
  shortest_path g src dst max_depth =
      let s = loop g max_depth max_depth (start_search src dst) in
      if src == dst
      then found []
      else if not (has_node g src) || not (has_node g dst)
      then no_path
      else answer s
