-- ===== src/Sublineage/Bfs/Expand.antt =====
-- One whole level of one side.
use mathlib.Core.List.{Memᴰ}
use bricktrace.Prelude.{
  ℕ, ◌+◌, ◌≤◌, ◌≡◌, refl, sym, ◌∙◌, inl, inr, String, true, false, eq_iff, List, [], Option, none,
  some, arith, elem, Bool-cases,
}
use bricktrace.Prelude.Dict.{lookup, known}
use bricktrace.Sublineage.Graph.{Direction, HopRecord, SublineageGraph, neighbors, far_end}
use bricktrace.Sublineage.Bfs.{Parents, Side, start, Round, sweep, expand}
use bricktrace.Sublineage.Bfs.Levels.{
  Walk, here, there, at_root, IsLevel, IsMid, Swept, sweep-Swept,
}

-- An iteration order of sets: it keeps the elements.
abbrev pub KeepsElements : (List String → List String) → Type 0
KeepsElements order = (x : String) (xs : List String) → elem x (order xs) ≡ elem x xs

module _ (g : SublineageGraph) (d : Direction) (root : String) where
  pub start-IsLevel : IsLevel g d root (start root)
  unfolding known lookup elem
  start-IsLevel = record {
    traced = λ n e.
        rw ((eq_iff n root).0 (ground arith))
          ([], 0, at_root (unfold lookup in ground (arith, eq_iff root root)), omega arith);
    complete = λ n path k w le. at_start n path k w le;
    closed = λ n hop e f i. ground arith;
    fresh = λ n e. ground arith;
  }
    where
      at_start :
          (n : String) (path : List HopRecord) (k : ℕ)
          → Walk g d root n path k
          → k ≤ 0
          → known (start root).parents n ≡ true
      at_start n path k here le = ground (arith, eq_iff root root)
      at_start n path k (there hop w i) le = absurd (omega arith)

  module _ (other : Parents) (s : Side) where
    -- What a level adds to the knowledge of a side, and what its meeting node means.
    pub record Expanded (s' : Side) (m : Option String) : Type 0 where
      pub level : IsLevel g d root s'
      pub deeper : s'.depth ≡ s.depth + 1
      pub met : (x : String) → m ≡ some x → (known s'.parents x ≡ true) × (known other x ≡ true)
      pub unmet :
          m ≡ none
          → ((n : String) → known s.parents n ≡ true → known other n ≡ false)
          → (n : String) → known s'.parents n ≡ true
          → known other n ≡ false

    begin : Round
    begin = record { parents = s.parents; next_frontier = []; meeting = none }

    begin-IsMid : IsLevel g d root s → IsMid g d root other s begin
    unfolding begin elem
    begin-IsMid h = record {
      kept = h.traced;
      traced = λ n e. let (path, k, t, le) = h.traced n e in (path, k, t, omega arith);
      queued = λ n e f. cc;
      fresh = λ n e. cc;
      met = λ m e. cc;
      unmet = λ n e f. cc;
    }

    -- A walk of one more hop leads from a frontier node or from one whose hops are known already.
    complete-expand :
        (nodes : List String) (r : Round)
        → ((n : String) → elem n nodes ≡ elem n s.frontier)
        → IsLevel g d root s
        → Swept g d root other s begin r nodes
        → (n : String) (path : List HopRecord) (k : ℕ) → Walk g d root n path k
        → k ≤ s.depth + 1
        → known r.parents n ≡ true
    unfolding begin
    complete-expand nodes r same h w n path k here le =
        w.more n (h.complete n [] 0 here (omega arith))
    complete-expand nodes r same h w n path k (there {m} {path = p} {k = j} hop t i) le =
        let before = h.complete m p j t (omega arith) in
        elim (Bool-cases (elem m s.frontier)) [
          | inl e ↦ w.reached m hop (same m ∙ e) i
          | inr e ↦ w.more (far_end d hop) (h.closed m hop before e i)
        ]

    -- The nodes that are not in the next frontier were known before, and not in the old frontier
    -- or swept: their hops lead to known nodes.
    closed-expand :
        (nodes : List String) (r : Round)
        → ((n : String) → elem n nodes ≡ elem n s.frontier)
        → IsLevel g d root s
        → Swept g d root other s begin r nodes
        → (n : String) (hop : HopRecord) → known r.parents n ≡ true
        → elem n r.next_frontier ≡ false
        → Memᴰ hop (neighbors g n d)
        → known r.parents (far_end d hop) ≡ true
    unfolding begin
    closed-expand nodes r same h w n hop e f i = elim (Bool-cases (known s.parents n)) [
      | inl old ↦ elim (Bool-cases (elem n s.frontier)) [
        | inl q ↦ w.reached n hop (same n ∙ q) i
        | inr q ↦ w.more (far_end d hop) (h.closed n hop old q i)
      ]
      | inr new ↦ cc (f, w.mid.queued n e new)
    ]

    module _ (order : List String → List String) (keeps : KeepsElements order) where
      pub expand-Expanded :
          IsLevel g d root s → Expanded (expand order g d other s).0 (expand order g d other s).1
      unfolding expand begin
      expand-Expanded h =
          let nodes = order s.frontier in
          let same = λ (n : String). keeps n s.frontier in
          let r = sweep g d other nodes begin in
          let w =
            sweep-Swept g d root other s nodes begin (λ n e. h.fresh n (sym (same n) ∙ e))
              (begin-IsMid h) in
          record {
            level = record {
              traced = w.mid.traced;
              complete = complete-expand nodes r same h w;
              closed = closed-expand nodes r same h w;
              fresh = w.mid.fresh;
            };
            deeper = refl;
            met = w.mid.met;
            unmet = λ e apart n f. elim (Bool-cases (known s.parents n)) [
              | inl old ↦ apart n old
              | inr new ↦ w.mid.unmet n e (w.mid.queued n f new)
            ];
          }
