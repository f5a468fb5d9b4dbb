-- ===== src/Sublineage/KPaths/Search.antt =====
-- What one call of the search adds to the results.
use mathlib.Core.List.{Memᴰ, append_assoc}
use mathlib.Core.List.Memᴰ
use mathlib.Core.Logic.{⊎_elim}
use mathlib.Core.Path.{subst, ap₂}
use bricktrace.Prelude.{
  ℕ, ◌≤◌, ◌<◌, ◌≡◌, refl, sym, ap, ◌∙◌, ◌⊎◌, inl, inr, String, true, false, eq_iff, List, [], ◌∷◌,
  ◌++◌, length, length-append, elem, arith,
}
use bricktrace.Sublineage.Graph.{HopRecord, SublineageGraph}
use bricktrace.Sublineage.KPaths.{HopPath}
use bricktrace.Sublineage.Bfs.Paths.{IsPath, stay, go}

-- No hop leads to a node that was visited before it.
abbrev pub Simple : List String → HopPath → Type 0
Simple visited [] = Unit
Simple visited (hop ∷ q) =
    (elem hop.dst_node_id visited ≡ false) × Simple (hop.dst_node_id ∷ visited) q

module _ (g : SublineageGraph) (dst : String) (max_paths : ℕ) where
  -- A way on from a node, through unvisited nodes and hops that the test admits first.
  pub record IsWay (node : String) (visited : List String) (bound : ℕ) (q : HopPath) : Type 0 where
    pub path : IsPath g dst node q
    pub simple : Simple visited q
    pub short : length q ≤ bound

  -- A way on whose first hop is one of these.
  pub data ByHop (hops : List HopRecord) (visited : List String) (bound : ℕ)
      : HopPath → Type 0 where
    by :
        (hop : HopRecord) (rest : HopPath)
        → Memᴰ hop hops
        → elem hop.dst_node_id visited ≡ false
        → IsWay hop.dst_node_id (hop.dst_node_id ∷ visited) bound rest
        → ByHop hops visited bound (hop ∷ rest)

  -- From `results` to `more`, where `Fits` are the ways that this part of the search is about.
  pub record Adds (path : HopPath) (Fits : HopPath → Type 0) (results more : List HopPath)
      : Type 0 where
    pub keeps : (p : HopPath) → Memᴰ p results → Memᴰ p more
    pub grows : length results ≤ length more
    pub bounded : length results < max_paths → length more ≤ max_paths
    pub sound :
        (p : HopPath) → Memᴰ p more → Memᴰ p results ⊎ ((q : HopPath) × (p ≡ path ++ q) × Fits q)
    pub full : (q : HopPath) → Fits q → Memᴰ (path ++ q) more ⊎ (max_paths ≤ length more)

  pub Adds-none :
      (path : HopPath) (Fits : HopPath → Type 0) (results : List HopPath)
      → ((q : HopPath) → ¬ (Fits q))
      → Adds path Fits results results
  Adds-none path Fits results no_way = record {
    keeps = λ p m. m;
    grows = omega arith;
    bounded = λ h. omega arith;
    sound = λ p m. inl m;
    full = λ q f. absurd (no_way q f);
  }

  pub Adds-stop :
      (path : HopPath) (Fits Wide : HopPath → Type 0) (results more : List HopPath)
      → Adds path Fits results more
      → ((q : HopPath) → Fits q → Wide q)
      → max_paths ≤ length more
      → Adds path Wide results more
  Adds-stop path Fits Wide results more a widen full = record {
    keeps = a.keeps;
    grows = a.grows;
    bounded = a.bounded;
    sound = λ p m. ⊎_elim inl (λ (q, e, f). inr (q, e, widen q f)) (a.sound p m);
    full = λ q f. inr full;
  }

  pub Adds-then :
      (path : HopPath) (First Second Both : HopPath → Type 0) (results mid more : List HopPath)
      → Adds path First results mid
      → Adds path Second mid more
      → length mid < max_paths
      → ((q : HopPath) → First q → Both q)
      → ((q : HopPath) → Second q → Both q)
      → ((q : HopPath) → Both q → First q ⊎ Second q)
      → Adds path Both results more
  Adds-then path First Second Both results mid more a b room left right split = record {
    keeps = λ p m. b.keeps p (a.keeps p m);
    grows = omega (arith, a.grows, b.grows);
    bounded = λ h. b.bounded room;
    sound = λ p m.
        ⊎_elim (λ n. ⊎_elim inl (λ (q, e, f). inr (q, e, left q f)) (a.sound p n))
          (λ (q, e, f). inr (q, e, right q f)) (b.sound p m);
    full = λ q f.
        ⊎_elim
          (λ x.
            ⊎_elim (λ m. inl (b.keeps (path ++ q) m)) (λ l. inr (omega (arith, b.grows)))
              (a.full q x))
          (b.full q) (split q f);
  }

  pub IsPath-nil : {u : String} → IsPath g dst u [] → u ≡ dst
  IsPath-nil stay = refl

  -- A way from the target itself that visits nothing twice is empty.
  pub no_way_home :
      (u : String) (q : HopPath) (visited : List String)
      → elem dst visited ≡ true
      → IsPath g dst u q
      → Simple visited q
      → q ≡ []
  unfolding elem
  no_way_home u [] visited e p h = refl
  no_way_home u (hop ∷ rest) visited e (go _ _ i p) h =
      let v = hop.dst_node_id in
      let ends = no_way_home v rest (v ∷ visited) (ground (arith, eq_iff dst v)) p h.1 in
      let at_home = IsPath-nil (subst (IsPath g dst v) ends p) in
      cc (h.0, subst (λ x. elem x visited ≡ true) (sym at_home) e)

  -- The hop that ends at the target.
  pub hit-Adds :
      (path : HopPath) (visited : List String) (bound : ℕ) (hop : HopRecord)
      (results : List HopPath)
      → elem hop.dst_node_id visited ≡ false
      → hop.dst_node_id ≡ dst
      → Adds path (ByHop (hop ∷ []) visited bound) results (results ++ (path ++ hop ∷ []) ∷ [])
  hit-Adds path visited bound hop results new home = record {
    keeps = λ p m. Memᴰ.append_left _ m;
    grows = omega (arith, length-append results ((path ++ hop ∷ []) ∷ []));
    bounded = λ h. omega (arith, length-append results ((path ++ hop ∷ []) ∷ []));
    sound = λ p m.
        ⊎_elim inl (λ last. inr (hop ∷ [], Memᴰ.eq_of_singleton last, only))
          (Memᴰ.append_cases results m);
    full = λ q f. inl (Memᴰ.append_right results (Memᴰ.head (ap (λ r. path ++ r) (alone q f))));
  }
    where
      only : ByHop (hop ∷ []) visited bound (hop ∷ [])
      only = by hop [] (Memᴰ.head refl) new (record {
        path = subst (λ x. IsPath g dst x []) (sym home) stay;
        simple = tt;
        short = omega arith;
      })

      alone : (q : HopPath) → ByHop (hop ∷ []) visited bound q → q ≡ hop ∷ []
      alone q (by k rest m e w) =
          let same = Memᴰ.eq_of_singleton m in
          let at_home = subst (λ x. x.dst_node_id ≡ dst) (sym same) home in
          let ends =
            no_way_home k.dst_node_id rest (k.dst_node_id ∷ visited)
              (unfold elem in ground (arith, eq_iff dst k.dst_node_id)) w.path w.simple in
          ap₂ ◌∷◌ same ends

  -- The hop that the search follows one level deeper.
  pub deeper-Adds :
      (path : HopPath) (visited : List String) (bound : ℕ) (hop : HopRecord)
      (results more : List HopPath)
      → elem hop.dst_node_id visited ≡ false
      → Adds
          (path ++ hop ∷ [])
          (IsWay hop.dst_node_id (hop.dst_node_id ∷ visited) bound)
          results
          more
      → Adds path (ByHop (hop ∷ []) visited bound) results more
  deeper-Adds path visited bound hop results more new a = record {
    keeps = a.keeps;
    grows = a.grows;
    bounded = a.bounded;
    sound = λ p m.
        ⊎_elim inl
          (λ (q, e, w).
            inr (hop ∷ q, e ∙ append_assoc path (hop ∷ []) q, by hop q (Memᴰ.head refl) new w))
          (a.sound p m);
    full = λ q f. after q f;
  }
    where
      after :
          (q : HopPath)
          → ByHop (hop ∷ []) visited bound q
          → Memᴰ (path ++ q) more ⊎ (max_paths ≤ length more)
      after q (by k rest m e w) =
          let same = Memᴰ.eq_of_singleton m in
          rw same (
            subst (λ r. Memᴰ r more ⊎ (max_paths ≤ length more)) (append_assoc path (hop ∷ []) rest)
              (a.full rest
                (subst (λ x. IsWay x.dst_node_id (x.dst_node_id ∷ visited) bound rest) same w)))
