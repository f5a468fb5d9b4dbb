-- ===== src/RootCause/Tables/Nearest.antt =====
-- The walk over tables finds the tables upstream, each at its least number of hops.
use bricktrace.Prelude.{
  ℕ, zero, suc, ◌+◌, ◌≤◌, true, String, List, [], ◌∷◌, Option, some, ◌≡◌, ◌≢◌, ◌↔◌, refl, ap, ◌∙◌,
  arith, elem,
}
use bricktrace.Prelude.Dict.{Dict, lookup, lookup_of_known}
use mathlib.Core.Path.{subst}
use bricktrace.RootCause.Tables.{next_tables, table_round, walk_tables, walk_upstream_tables}
use bricktrace.RootCause.Tables.Rows.{names, lookup-known, lookup-add_sources, elem-add_sources}
use bricktrace.RootCause.Tables.Advance.{
  IsAt, IsAnswered, IsNearest, IsRound, begin-IsNearest, next-IsNearest,
}

module _ (reads : String → List String) (query : List String → Option (List (Option String)))
    (answers : IsAnswered reads query) (start : String) where
  none_read : (t : String) {P : Type 0} → elem t [] ≡ true → P
  unfolding elem
  none_read t h = cc h

  table_round-IsRound :
      (hop : ℕ) (v : Dict ℕ) (frontier : List String)
      → IsRound reads start hop v frontier
          (table_round query start hop v frontier).0
          (table_round query start hop v frontier).1
  unfolding table_round next_tables elem
  table_round-IsRound hop v [] = record {
    sources = [];
    read = λ t s f e. none_read t f;
    read_only = λ s e. none_read s e;
    visits = λ s. lookup-known s v;
    fronts = λ s. refl;
  }
  table_round-IsRound hop v (t ∷ ts) =
      let (rows, e, into, out) = answers (t ∷ ts) in
      rw e (record {
        sources = names rows;
        read = into;
        read_only = out;
        visits = λ s. lookup-add_sources start (suc hop) s rows v [];
        fronts = λ s. elem-add_sources start (suc hop) s rows v [];
      })

  walk_tables-IsNearest :
      (left hop : ℕ) (v : Dict ℕ) (frontier : List String)
      → IsNearest reads start hop v frontier
      → (last : List String) × IsNearest reads start
          (left + hop)
          (walk_tables query start left hop v frontier)
          last
  unfolding walk_tables
  walk_tables-IsNearest zero hop v frontier i =
      (frontier, subst (λ k. IsNearest reads start k v frontier) (omega arith) i)
  walk_tables-IsNearest (suc left) hop v frontier i =
      let r = table_round-IsRound hop v frontier in
      let (last, j) =
        walk_tables-IsNearest left (suc hop) _ _
          (next-IsNearest reads start hop v frontier _ _ i r) in
      (
        last,
        subst
            (λ k. IsNearest reads start k (walk_tables query start (suc left) hop v frontier) last)
            (omega arith) j,
      )

  -- Where the statement names exactly the direct sources of a frontier, the walk holds a table at h hops
  -- if and only if h is the least number of hops to it, is from 1 to the limit, and the table is not the
  -- one that the walk starts from.
  pub walk_upstream_tables_iff :
      (max_hops : ℕ) (s : String) (h : ℕ)
      → (lookup s (walk_upstream_tables query start max_hops) ≡ some h) ↔ (
          IsAt reads start h s
          × (1 ≤ h)
          × (h ≤ max_hops)
          × (s ≢ start)
          × ((n : ℕ) → IsAt reads start n s → h ≤ n))
  unfolding walk_upstream_tables
  walk_upstream_tables_iff max_hops s h =
      let (last, i) =
        walk_tables-IsNearest max_hops 0 [] (start ∷ []) (begin-IsNearest reads start) in
      (
        λ e.
            let (a, one, le, away) = i.met s h e in
            (a, one, omega (arith, le), away, λ n b. i.least s h n e b),
        λ p.
            let (a, one, le, away, least) = p in
            let (g, e) = lookup_of_known s _ (i.all_met s h a (omega (arith, le)) away) in
            let low = i.least s g h e a in
            let high = least g (i.met s g e).0 in
            let same : g ≡ h = omega (arith, low, high) in e ∙ ap some same,
      )
