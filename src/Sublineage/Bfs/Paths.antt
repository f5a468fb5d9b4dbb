-- ===== src/Sublineage/Bfs/Paths.antt =====
-- Paths in the direction of the edges, and the walks of the two sides.
use mathlib.Core.List.{Memᴰ, reverse, reverse-append}
use mathlib.Core.Path.{subst}
use bricktrace.Prelude.{
  ℕ, suc, ◌≡◌, ◌≢◌, eq_iff, refl, sym, ap, inl, inr, String, true, ◌==◌, List, [], ◌∷◌, ◌++◌, arith,
  Bool-cases, length, length-append,
}
use bricktrace.Sublineage.Graph.{
  Direction, downstream, upstream, HopRecord, SublineageGraph, neighbors, has_node, far_end,
}
use bricktrace.Sublineage.Graph.Laws.{opposite, near_end, IsMirrored}
use bricktrace.Sublineage.Bfs.Levels.{Walk, here, there}

-- The hops lead from the first node to the second, each starting where the one before it ends.
pub data IsPath (g : SublineageGraph) (v : String) : String → List HopRecord → Type 0 where
  stay : IsPath g v v []
  go :
      {rest : List HopRecord} (u : String) (hop : HopRecord)
      → Memᴰ hop (neighbors g u downstream)
      → IsPath g v hop.dst_node_id rest
      → IsPath g v u (hop ∷ rest)

module _ (g : SublineageGraph) where
  IsPath-snoc :
      {m u : String} {p : List HopRecord} (hop : HopRecord)
      → IsPath g m u p
      → Memᴰ hop (neighbors g m downstream)
      → IsPath g hop.dst_node_id u (p ++ hop ∷ [])
  IsPath-snoc {m} hop stay i = go m hop i stay
  IsPath-snoc hop (go u first j p) i = go u first j (IsPath-snoc hop p i)

  pub IsPath-reverse :
      {src n : String} {path : List HopRecord} {k : ℕ}
      → Walk g downstream src n path k
      → IsPath g n src (reverse path)
  unfolding far_end
  IsPath-reverse here = stay
  IsPath-reverse (there {path} hop w i) =
      rw (reverse-append (hop ∷ []) path) (IsPath-snoc hop (IsPath-reverse w) i)

  pub length-Walk :
      {d : Direction} {root n : String} {path : List HopRecord} {k : ℕ}
      → Walk g d root n path k
      → length path ≡ k
  length-Walk here = refl
  length-Walk (there hop w i) = ap suc (length-Walk w)

  module _ (wf : IsMirrored g) where
    pub IsPath-Walk :
        {dst n : String} {path : List HopRecord} {k : ℕ}
        → Walk g upstream dst n path k
        → IsPath g dst n path
    unfolding far_end near_end
    IsPath-Walk here = stay
    IsPath-Walk {dst} (there {m} {path} hop w i) =
        go hop.src_node_id hop (unfold opposite in wf.mirrors upstream m hop i)
          (subst (λ x. IsPath g dst x path) (wf.leaves upstream m hop i) (IsPath-Walk w))

    pub Walk-IsPath :
        {dst n : String} {q : List HopRecord}
        → IsPath g dst n q
        → Walk g upstream dst n q (length q)
    unfolding far_end near_end
    Walk-IsPath stay = here
    Walk-IsPath {dst} (go {rest} u hop i p) =
        subst (λ x. Walk g upstream dst x (hop ∷ rest) (suc (length rest)))
          (sym (wf.leaves downstream u hop i))
          (there hop (Walk-IsPath p) (unfold opposite in wf.mirrors downstream u hop i))

pub length-reverse : (xs : List HopRecord) → length (reverse xs) ≡ length xs
length-reverse [] = refl
length-reverse (x ∷ xs) =
    rw (reverse-append (x ∷ []) xs)
      (omega (arith, length-append (reverse xs) (x ∷ []), length-reverse xs))

pub IsPath-append :
    (g : SublineageGraph) {v m u : String} {p q : List HopRecord}
    → IsPath g m u p
    → IsPath g v m q
    → IsPath g v u (p ++ q)
IsPath-append g stay y = y
IsPath-append g (go u hop i x) y = go u hop i (IsPath-append g x y)

pub IsPath-cons :
    (g : SublineageGraph) (v u : String) (hop : HopRecord) (rest : List HopRecord)
    → IsPath g v u (hop ∷ rest)
    → Memᴰ hop (neighbors g u downstream) × IsPath g v hop.dst_node_id rest
IsPath-cons g v u hop rest (go _ _ i p) = (i, p)

-- A path that is not empty joins nodes of the graph.
pub has_node_of_path :
    (g : SublineageGraph) (wf : IsMirrored g) (src dst : String) (q : List HopRecord)
    → src ≢ dst
    → IsPath g dst src q
    → (has_node g src ≡ true) × (has_node g dst ≡ true)
has_node_of_path g wf src dst q apart path = (first path apart, last (Walk-IsPath g wf path) apart)
  where
    first : {x : String} {r : List HopRecord} → IsPath g dst x r → x ≢ dst → has_node g x ≡ true
    first stay no_hop = absurd (no_hop refl)
    first (go u hop i p) no_hop = wf.names downstream u hop i

    last :
        {x : String} {r : List HopRecord} {k : ℕ}
        → Walk g upstream dst x r k
        → x ≢ dst
        → has_node g dst ≡ true
    last here no_hop = absurd (no_hop refl)
    last (there hop here i) no_hop = wf.names upstream dst hop i
    last (there hop (there {m} h w j) i) no_hop = elim (Bool-cases (far_end upstream h == dst)) [
      | inl e ↦
          subst (λ x. has_node g x ≡ true) ((eq_iff (far_end upstream h) dst).0 e)
            (wf.names upstream (far_end upstream h) hop i)
      | inr e ↦ last (there h w j) (λ q. cc (e, (eq_iff (far_end upstream h) dst).1 q))
    ]
