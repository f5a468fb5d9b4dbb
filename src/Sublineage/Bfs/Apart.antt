-- ===== src/Sublineage/Bfs/Apart.antt =====
-- How far the two sides are apart while no node is known to both.
use bricktrace.Prelude.{
  ℕ, suc, ◌+◌, ◌≤◌, ◌<◌, ◌≡◌, refl, inl, inr, String, true, false, List, [], ◌∷◌, arith, elem,
  Bool-cases, length, leb, ltb, ltb→lt, ltb_false→le,
}
use bricktrace.Prelude.Dict.{known}
use bricktrace.Sublineage.Graph.{
  Direction, downstream, upstream, HopRecord, SublineageGraph, far_end,
}
use bricktrace.Sublineage.Graph.Laws.{IsMirrored}
use bricktrace.Sublineage.Bfs.{Side, Search, is_empty}
use bricktrace.Sublineage.Bfs.Levels.{Walk, here, there, IsLevel}
use bricktrace.Sublineage.Bfs.Paths.{IsPath, stay, go, Walk-IsPath}

module _ (g : SublineageGraph) (wf : IsMirrored g) (src dst : String) where
  -- Both sides know what their depths promise.
  pub record IsSearch (s : Search) : Type 0 where
    pub fwd : IsLevel g downstream src s.fwd
    pub bwd : IsLevel g upstream dst s.bwd

  -- No node is known to both sides.
  abbrev pub Apart : Search → Type 0
  Apart s = (n : String) → known s.fwd.parents n ≡ true → known s.bwd.parents n ≡ false

  -- Every path from the source to the target has more hops than this.
  abbrev pub LongerThan : ℕ → Type 0
  LongerThan k = (q : List HopRecord) → IsPath g dst src q → k < length q

  -- A path that the two depths cover has a node that both sides know.
  abbrev Shared : Search → Type 0
  Shared s = (y : String) × (known s.fwd.parents y ≡ true) × (known s.bwd.parents y ≡ true)

  crossing :
      (s : Search) {x : String} {q : List HopRecord} (p : List HopRecord) (k : ℕ)
      → IsSearch s
      → IsPath g dst x q
      → Walk g downstream src x p k
      → k ≤ s.fwd.depth
      → k + length q ≤ s.fwd.depth + s.bwd.depth
      → Shared s
  unfolding far_end
  crossing s p k h stay w le sum =
      (dst, h.fwd.complete dst p k w le, h.bwd.complete dst [] 0 here (omega arith))
  crossing s p k h (go {rest} x hop i path) w le sum =
      elim (Bool-cases (leb (length (hop ∷ rest)) s.bwd.depth)) [
        | inl near ↦ (
          x,
          h.fwd.complete x p k w le,
          h.bwd.complete x (hop ∷ rest) (length (hop ∷ rest)) (Walk-IsPath g wf (go x hop i path))
              (ground arith),
        )
        | inr far ↦ crossing s (hop ∷ p) (suc k) h path (there hop w i) (ground arith) (omega arith)
      ]

  -- While no node is known to both sides, the depths add up to less than any path's length.
  pub Apart-LongerThan :
      (s : Search) → IsSearch s → Apart s → LongerThan (s.fwd.depth + s.bwd.depth)
  Apart-LongerThan s h apart q path =
      elim (Bool-cases (ltb (s.fwd.depth + s.bwd.depth) (length q))) [
        | inl longer ↦ ltb→lt _ _ longer
        | inr short ↦
            let (y, f, b) =
              crossing s [] 0 h path here (omega arith) (omega (arith, ltb_false→le _ _ short)) in
            cc (apart y f, b)
      ]

  -- A side whose frontier is empty knows all that walks from its root reach.
  exhausted :
      (d : Direction) (root : String) (side : Side)
      → IsLevel g d root side
      → is_empty side.frontier ≡ true
      → {n : String} {path : List HopRecord} {k : ℕ} (w : Walk g d root n path k)
      → known side.parents n ≡ true
  unfolding is_empty elem
  exhausted d root side h e here = h.complete root [] 0 here (omega arith)
  exhausted d root side h e (there {m} hop w i) =
      h.closed m hop (exhausted d root side h e w) (nothing side.frontier e) i
    where
      nothing : (l : List String) → is_empty l ≡ true → elem m l ≡ false
      nothing [] q = refl
      nothing (x ∷ l) q = cc

  pub fwd_exhausted :
      (s : Search) → IsSearch s → Apart s → is_empty s.fwd.frontier ≡ true → (k : ℕ) → LongerThan k
  unfolding far_end
  fwd_exhausted s h apart e k q path =
      cc (apart dst (reaches here path), h.bwd.complete dst [] 0 here (omega arith))
    where
      reaches :
          {x : String} {p r : List HopRecord} {j : ℕ}
          → Walk g downstream src x p j
          → IsPath g dst x r
          → known s.fwd.parents dst ≡ true
      reaches w stay = exhausted downstream src s.fwd h.fwd e w
      reaches w (go x hop i path') = reaches (there hop w i) path'

  pub bwd_exhausted :
      (s : Search) → IsSearch s → Apart s → is_empty s.bwd.frontier ≡ true → (k : ℕ) → LongerThan k
  bwd_exhausted s h apart e k q path = cc (
    apart src (h.fwd.complete src [] 0 here (omega arith)),
    exhausted upstream dst s.bwd h.bwd e (Walk-IsPath g wf path),
  )
