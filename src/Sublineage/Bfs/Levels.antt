-- ===== src/Sublineage/Bfs/Levels.antt =====
-- One side of the search: after `depth` levels it knows exactly the nodes that a walk of at most
-- `depth` hops reaches from its root, and the parents of each lead back along such a walk.
use mathlib.Core.List.{Memᴰ}
use mathlib.Core.List.Memᴰ
use mathlib.Core.Logic.{⊎_elim}
use mathlib.Core.Path.{subst}
use bricktrace.Prelude.{
  ℕ, zero, suc, ◌+◌, ◌≤◌, ◌≡◌, refl, inl, inr, String, true, false, ◌==◌, eq_iff, List, [], ◌∷◌,
  ◌++◌, Option, none, some, arith, elem, elem-append, elem-cons_self, Bool-cases,
}
use bricktrace.Prelude.Dict.{lookup, insert, known, lookup-insert, known-insert, known_of_lookup}
use bricktrace.Sublineage.Graph.{Direction, HopRecord, SublineageGraph, neighbors, far_end}
use bricktrace.Sublineage.Bfs.{Parents, Side, Round, meet, offer, offer_all, sweep, walk_back}

module _ (g : SublineageGraph) (d : Direction) where
  -- A walk of so many hops from the root, its last hop first.
  pub data Walk (root : String) : String → List HopRecord → ℕ → Type 0 where
    here : Walk root root [] 0
    there :
        {m : String} {path : List HopRecord} {k : ℕ} (hop : HopRecord)
        → Walk root m path k
        → Memᴰ hop (neighbors g m d)
        → Walk root (far_end d hop) (hop ∷ path) (suc k)

  -- The parents lead from the node back to the root along this walk.
  pub data Traced (root : String) (ps : Parents) : String → List HopRecord → ℕ → Type 0 where
    at_root : lookup root ps ≡ some none → Traced root ps root [] 0
    back :
        {m : String} {path : List HopRecord} {k : ℕ} (n : String) (hop : HopRecord)
        → lookup n ps ≡ some (some (m, hop))
        → n ≡ far_end d hop
        → Memᴰ hop (neighbors g m d)
        → Traced root ps m path k
        → Traced root ps n (hop ∷ path) (suc k)

  -- Some chain of at most so many parents.
  abbrev pub TracedWithin : String → Parents → ℕ → String → Type 0
  TracedWithin root ps bound n =
      (path : List HopRecord) × (k : ℕ) × Traced root ps n path k × (k ≤ bound)

  known-Traced :
      {root : String} {ps : Parents} {n : String} {path : List HopRecord} {k : ℕ}
      → Traced root ps n path k
      → known ps n ≡ true
  known-Traced {root} {ps} (at_root e) = known_of_lookup root none ps e
  known-Traced {ps = ps} (back {m} n hop e q i t) = known_of_lookup n (some (m, hop)) ps e

  -- A new key moves no chain.
  Traced-insert :
      {root : String} {ps : Parents} {n : String} {path : List HopRecord} {k : ℕ} (x : String)
      (v : Option (String × HopRecord))
      → known ps x ≡ false
      → Traced root ps n path k
      → Traced root (insert x v ps) n path k
  Traced-insert {root} {ps} x v new (at_root e) =
      at_root
        (ground (arith, lookup-insert x root v ps, eq_iff root x, known_of_lookup root none ps e))
  Traced-insert {ps = ps} x v new (back {m} n hop e q i t) =
      back n hop
        (ground (arith, lookup-insert x n v ps, eq_iff n x, known_of_lookup n (some (m, hop)) ps e))
        q i (Traced-insert x v new t)

  -- With the depth as fuel the loop over the parents returns the chain.
  pub walk_back-Traced :
      {root : String} {ps : Parents} {n : String} {path : List HopRecord} {k : ℕ} (fuel : ℕ)
      → Traced root ps n path k
      → k ≤ fuel
      → walk_back fuel ps n ≡ some path
  unfolding walk_back
  walk_back-Traced zero (at_root e) h = rw (e, walk_back)
  walk_back-Traced (suc fuel) (at_root e) h = rw (e, walk_back)
  walk_back-Traced zero (back n hop e q i t) h = absurd (omega arith)
  walk_back-Traced (suc fuel) (back n hop e q i t) h =
      rw (e, walk_back) (rw (walk_back-Traced fuel t (omega arith)))

  pub Walk-Traced :
      {root : String} {ps : Parents} {n : String} {path : List HopRecord} {k : ℕ}
      → Traced root ps n path k
      → Walk root n path k
  Walk-Traced (at_root e) = here
  Walk-Traced (back n hop e q i t) = rw q (there hop (Walk-Traced t) i)

  module _ (root : String) where
    -- What a side knows between two levels.
    pub record IsLevel (s : Side) : Type 0 where
      pub traced : (n : String) → known s.parents n ≡ true → TracedWithin root s.parents s.depth n
      pub complete :
          (n : String) (path : List HopRecord) (k : ℕ)
          → Walk root n path k
          → k ≤ s.depth
          → known s.parents n ≡ true
      pub closed :
          (n : String) (hop : HopRecord)
          → known s.parents n ≡ true
          → elem n s.frontier ≡ false
          → Memᴰ hop (neighbors g n d)
          → known s.parents (far_end d hop) ≡ true
      pub fresh : (n : String) → elem n s.frontier ≡ true → known s.parents n ≡ true

    module _ (other : Parents) (s : Side) where
      -- What holds in the middle of a round that started from the side `s`.
      pub record IsMid (r : Round) : Type 0 where
        pub kept : (n : String) → known s.parents n ≡ true → TracedWithin root r.parents s.depth n
        pub traced :
            (n : String) → known r.parents n ≡ true → TracedWithin root r.parents (s.depth + 1) n
        pub queued :
            (n : String)
            → known r.parents n ≡ true
            → known s.parents n ≡ false
            → elem n r.next_frontier ≡ true
        pub fresh : (n : String) → elem n r.next_frontier ≡ true → known r.parents n ≡ true
        pub met :
            (m : String) → r.meeting ≡ some m → (known r.parents m ≡ true) × (known other m ≡ true)
        pub unmet :
            (n : String) → r.meeting ≡ none → elem n r.next_frontier ≡ true → known other n ≡ false

      lift-TracedWithin :
          (ps : Parents) (x : String) (v : Option (String × HopRecord)) (bound : ℕ) (n : String)
          → known ps x ≡ false
          → TracedWithin root ps bound n
          → TracedWithin root (insert x v ps) bound n
      lift-TracedWithin ps x v bound n new (path, k, t, h) = (path, k, Traced-insert x v new t, h)

      added : Round → String → HopRecord → Round
      added r node hop = record {
        parents = insert (far_end d hop) (some (node, hop)) r.parents;
        next_frontier = r.next_frontier ++ far_end d hop ∷ [];
        meeting = meet other (far_end d hop) r.meeting;
      }

      added-traced :
          (r : Round) (node : String) (hop : HopRecord) (n : String)
          → known r.parents (far_end d hop) ≡ false
          → known s.parents node ≡ true
          → Memᴰ hop (neighbors g node d)
          → IsMid r
          → known (added r node hop).parents n ≡ true
          → TracedWithin root (added r node hop).parents (s.depth + 1) n
      unfolding added
      added-traced r node hop n new from i h e =
          let x = far_end d hop in
          let v : Option (String × HopRecord) = some (node, hop) in
          elim (Bool-cases (n == x)) [
            | inl q ↦
                let (path, k, t, le) = h.kept node from in
                rw ((eq_iff n x).0 q) (
                  hop ∷ path,
                  suc k,
                  back x hop (ground (arith, lookup-insert x x v r.parents, eq_iff x x)) refl i
                      (Traced-insert x v new t),
                  omega arith,
                )
            | inr q ↦
                lift-TracedWithin r.parents x v (s.depth + 1) n new
                  (h.traced n (ground (arith, known-insert x n v r.parents)))
          ]

      added-IsMid :
          (r : Round) (node : String) (hop : HopRecord)
          → known r.parents (far_end d hop) ≡ false
          → known s.parents node ≡ true
          → Memᴰ hop (neighbors g node d)
          → IsMid r
          → IsMid (added r node hop)
      unfolding added meet elem
      added-IsMid r node hop new from i h =
          let x = far_end d hop in
          let v : Option (String × HopRecord) = some (node, hop) in
          record {
            kept = λ n e. lift-TracedWithin r.parents x v s.depth n new (h.kept n e);
            traced = λ n e. added-traced r node hop n new from i h e;
            queued = λ n e f. ground (
              arith,
              known-insert x n v r.parents,
              elem-append n r.next_frontier (x ∷ []),
              h.queued n,
              elem-cons_self x [],
              eq_iff n x,
            );
            fresh = λ n e. ground (
              arith,
              known-insert x n v r.parents,
              elem-append n r.next_frontier (x ∷ []),
              h.fresh n,
            );
            met = λ m e. ground (arith, known-insert x m v r.parents, h.met m, eq_iff m x);
            unmet = λ n e f.
                ground (arith, elem-append n r.next_frontier (x ∷ []), h.unmet n, eq_iff n x);
          }

      -- The invariant after a step of the round, what it keeps known, and the nodes it makes known.
      pub record Stepped (r r' : Round) (hops : List HopRecord) : Type 0 where
        pub mid : IsMid r'
        pub more : (n : String) → known r.parents n ≡ true → known r'.parents n ≡ true
        pub reached : (hop : HopRecord) → Memᴰ hop hops → known r'.parents (far_end d hop) ≡ true

      offer-Stepped :
          (r : Round) (node : String) (hop : HopRecord)
          → known s.parents node ≡ true
          → Memᴰ hop (neighbors g node d)
          → IsMid r
          → Stepped r (offer d other node r hop) (hop ∷ [])
      unfolding offer added
      offer-Stepped r node hop from i h =
          let x = far_end d hop in
          let v : Option (String × HopRecord) = some (node, hop) in
          elim (Bool-cases (known r.parents x)) [
            | inl old ↦ rw old (record {
              mid = h;
              more = λ n e. e;
              reached = λ k m. rw (Memᴰ.eq_of_singleton m) old;
            })
            | inr new ↦ rw new (record {
              mid = added-IsMid r node hop new from i h;
              more = λ n e. ground (arith, known-insert x n v r.parents);
              reached = λ k m.
                  rw (Memᴰ.eq_of_singleton m)
                    (ground (arith, known-insert x x v r.parents, eq_iff x x));
            })
          ]

      offer_all-Stepped :
          (node : String) (hops : List HopRecord) (r : Round)
          → known s.parents node ≡ true
          → ((hop : HopRecord) → Memᴰ hop hops → Memᴰ hop (neighbors g node d))
          → IsMid r
          → Stepped r (offer_all d other node hops r) hops
      unfolding offer_all
      offer_all-Stepped node [] r from i h = record {
        mid = h;
        more = λ n e. e;
        reached = λ hop m. absurd (Memᴰ.not-nil m);
      }
      offer_all-Stepped node (hop ∷ hops) r from i h =
          let one = offer-Stepped r node hop from (i hop (Memᴰ.head refl)) h in
          let rest =
            offer_all-Stepped node hops (offer d other node r hop) from (λ k m. i k (Memᴰ.tail m))
              one.mid in
          record {
            mid = rest.mid;
            more = λ n e. rest.more n (one.more n e);
            reached = λ k m.
                ⊎_elim (λ q. rest.more (far_end d k) (one.reached k (Memᴰ.head q))) (rest.reached k)
                  (Memᴰ.cases_cons m);
          }

      -- After the sweep of some known nodes every hop from one of them leads to a known node.
      pub record Swept (r r' : Round) (nodes : List String) : Type 0 where
        pub mid : IsMid r'
        pub more : (n : String) → known r.parents n ≡ true → known r'.parents n ≡ true
        pub reached :
            (n : String) (hop : HopRecord)
            → elem n nodes ≡ true
            → Memᴰ hop (neighbors g n d)
            → known r'.parents (far_end d hop) ≡ true

      pub sweep-Swept :
          (nodes : List String) (r : Round)
          → ((n : String) → elem n nodes ≡ true → known s.parents n ≡ true)
          → IsMid r
          → Swept r (sweep g d other nodes r) nodes
      unfolding sweep elem
      sweep-Swept [] r from h = record { mid = h; more = λ n e. e; reached = λ n hop e. cc }
      sweep-Swept (node ∷ nodes) r from h =
          let one =
            offer_all-Stepped node (neighbors g node d) r (from node (elem-cons_self node nodes))
              (λ k m. m) h in
          let rest =
            sweep-Swept nodes (offer_all d other node (neighbors g node d) r)
              (λ n e. from n (ground arith)) one.mid in
          record {
            mid = rest.mid;
            more = λ n e. rest.more n (one.more n e);
            reached = λ n hop e m. elim (Bool-cases (n == node)) [
              | inl q ↦ rest.more (far_end d hop) (
                  one.reached hop (subst (λ x. Memᴰ hop (neighbors g x d)) ((eq_iff n node).0 q) m))
              | inr q ↦ rest.reached n hop (ground arith) m
            ];
          }
