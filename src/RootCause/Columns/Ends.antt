-- ===== src/RootCause/Columns/Ends.antt =====
-- The walk over columns ends, and what it finds lies upstream.
use mathlib.Core.List.{Memᴰ}
use mathlib.Core.List.Memᴰ
use mathlib.Core.Logic.{⊎_elim}
use bricktrace.Prelude.{
  ℕ, zero, suc, ◌+◌, ◌*◌, ◌-◌, ◌≤◌, ◌<◌, ◌||◌, ◌&&◌, String, List, [], ◌∷◌, ◌++◌, Option, none,
  some, ◌≡◌, refl, ap, sym, leb, leb_false→lt, arith, Bool-cases, inl, inr, length,
}
use mathlib.Core.Path.{subst}
use bricktrace.Validators.Url.{truthy}
use bricktrace.RootCause.Columns.{
  UpstreamColumn, SourceRow, Walk, was_visited, sources_of, fetched, cost, take_first, round,
  path_of, walk, walk_upstream_columns,
}

-- A statement with LIMIT 30 returns at most 30 rows.
abbrev pub IsLimited : Option (List SourceRow) → Type 0
IsLimited none = Unit
IsLimited (some rows) = length rows ≤ 30

-- The rounds that the queue can still cost.
unfoldable total : ℕ → List UpstreamColumn → ℕ
unfolding cost
total max_hops [] = 0
total max_hops (u ∷ us) = cost (max_hops - u.hop) + total max_hops us

total-append :
    (max_hops : ℕ) (xs ys : List UpstreamColumn)
    → total max_hops (xs ++ ys) ≡ total max_hops xs + total max_hops ys
unfolding total
total-append max_hops [] ys = omega arith
total-append max_hops (u ∷ xs) ys = omega (arith, total-append max_hops xs ys)

times : ℕ → ℕ → ℕ
times zero c = 0
times (suc n) c = c + times n c

total-sources_of :
    (max_hops hop n : ℕ) (rows : List SourceRow)
    → length rows ≤ n
    → total max_hops (sources_of hop rows) ≤ times n (cost (max_hops - hop))
unfolding total sources_of times
total-sources_of max_hops hop n [] h = omega arith
total-sources_of max_hops hop zero (r ∷ rows) h = absurd (omega arith)
total-sources_of max_hops hop (suc n) ((t, c) ∷ rows) h =
    ground (arith, total-sources_of max_hops hop n rows)

total-fetched :
    (max_hops hop : ℕ) (rows : Option (List SourceRow))
    → IsLimited rows
    → total max_hops (fetched hop rows) ≤ 30 * cost (max_hops - hop)
unfolding fetched times total
total-fetched max_hops hop none h = omega arith
total-fetched max_hops hop (some rows) h = omega (arith, total-sources_of max_hops hop 30 rows h)

cost-pos : (hops : ℕ) → 0 < cost hops
unfolding cost
cost-pos zero = omega arith
cost-pos (suc hops) = omega arith

cost_step :
    (max_hops hop : ℕ) → hop < max_hops → cost (max_hops - hop) ≡ 1 + 30 * cost (max_hops - suc hop)
unfolding cost
cost_step max_hops hop h =
    let one : max_hops - hop ≡ suc (max_hops - suc hop) = omega (arith, h) in ap cost one

module _ (query : String → String → Option (List SourceRow))
    (limit : (tbl col : String) → IsLimited (query tbl col)) (max_hops : ℕ) where
  total-take_first :
      (u : UpstreamColumn) (rest : List UpstreamColumn) (w : Walk)
      → total max_hops (take_first query max_hops u rest w).frontier < total max_hops (u ∷ rest)
  unfolding take_first total
  total-take_first u rest w =
      let found = fetched (suc u.hop) (query u.table u.column) in
      let few =
        total-fetched max_hops (suc u.hop) (query u.table u.column) (limit u.table u.column) in
      elim (Bool-cases (was_visited u.table u.column w.visited || leb max_hops u.hop)) [
        | inl e ↦ rw e (omega (arith, cost-pos (max_hops - u.hop)))
        | inr e ↦
            let near : u.hop < max_hops = leb_false→lt max_hops u.hop (ground arith) in
            rw e
              (omega (arith, total-append max_hops rest found, cost_step max_hops u.hop near, few))
      ]

  walk_ends :
      (rounds : ℕ) (w : Walk)
      → total max_hops w.frontier ≤ rounds
      → (path : List UpstreamColumn) × (walk query max_hops rounds w ≡ some path)
  unfolding walk round path_of total
  walk_ends zero w h = ends w.frontier h
    where
      ends :
          (us : List UpstreamColumn)
          → total max_hops us ≤ 0
          → (path : List UpstreamColumn) × (path_of query max_hops us w ≡ some path)
      ends [] h' = (w.path, refl)
      ends (u ∷ us) h' = absurd (omega (arith, cost-pos (max_hops - u.hop)))
  walk_ends (suc rounds) w h =
      walk_ends rounds (round query max_hops w.frontier w) (fewer w.frontier refl)
    where
      fewer :
          (us : List UpstreamColumn)
          → w.frontier ≡ us
          → total max_hops (round query max_hops us w).frontier ≤ rounds
      fewer [] e = omega (arith, ap (total max_hops) e)
      fewer (u ∷ us) e = omega (arith, total-take_first u us w, ap (total max_hops) e, h)

-- The column lies upstream of the start, over so many rows of the queries.
pub data IsUpstream (query : String → String → Option (List SourceRow))
    (start_table start_column : String) : String → String → ℕ → Type 0 where
  start : IsUpstream query start_table start_column start_table start_column 0
  source :
      (u : UpstreamColumn) (v : UpstreamColumn)
      → IsUpstream query start_table start_column u.table u.column u.hop
      → Memᴰ v (fetched (suc u.hop) (query u.table u.column))
      → IsUpstream query start_table start_column v.table v.column v.hop

-- What is queued and what was found lies upstream; what was found within the limit of hops.
record IsSound (query : String → String → Option (List SourceRow)) (max_hops : ℕ) (tbl col : String)
    (w : Walk) : Type 0 where
  queued :
      (u : UpstreamColumn) → Memᴰ u w.frontier → IsUpstream query tbl col u.table u.column u.hop
  listed :
      (u : UpstreamColumn)
      → Memᴰ u w.path
      → IsUpstream query tbl col u.table u.column u.hop × (1 ≤ u.hop) × (u.hop ≤ max_hops)

hop_of_source :
    (hop : ℕ) (rows : List SourceRow) (u : UpstreamColumn)
    → Memᴰ u (sources_of hop rows)
    → u.hop ≡ hop
unfolding sources_of
hop_of_source hop [] u m = absurd (Memᴰ.not-nil m)
hop_of_source hop ((t, c) ∷ rows) u m = elim (Bool-cases (truthy t && truthy c)) [
  | inl e ↦ ⊎_elim (λ q. ap (λ v. v.hop) q) (hop_of_source hop rows u) (Memᴰ.cases_cons (rw e at m))
  | inr e ↦ hop_of_source hop rows u (rw e at m)
]

hop_of_fetched :
    (hop : ℕ) (rows : Option (List SourceRow)) (u : UpstreamColumn)
    → Memᴰ u (fetched hop rows)
    → u.hop ≡ hop
unfolding fetched
hop_of_fetched hop none u m = absurd (Memᴰ.not-nil m)
hop_of_fetched hop (some rows) u m = hop_of_source hop rows u m

module _ (query : String → String → Option (List SourceRow)) (max_hops : ℕ) (tbl col : String) where
  take_first-IsSound :
      (u : UpstreamColumn) (rest : List UpstreamColumn) (w : Walk)
      → w.frontier ≡ u ∷ rest
      → IsSound query max_hops tbl col w
      → IsSound query max_hops tbl col (take_first query max_hops u rest w)
  unfolding take_first
  take_first-IsSound u rest w e s =
      let head = s.queued u (subst (λ us. Memᴰ u us) (sym e) (Memᴰ.head refl)) in
      let tail : (v : UpstreamColumn)
          → Memᴰ v rest
          → IsUpstream query tbl col v.table v.column v.hop =
        λ v m. s.queued v (subst (λ us. Memᴰ v us) (sym e) (Memᴰ.tail m)) in
      elim (Bool-cases (was_visited u.table u.column w.visited || leb max_hops u.hop)) [
        | inl t ↦ rw t (record { queued = tail; listed = s.listed })
        | inr t ↦
            let near : u.hop < max_hops = leb_false→lt max_hops u.hop (ground arith) in
            rw t (record {
              queued = λ v m. ⊎_elim (tail v) (λ n. source u v head n) (Memᴰ.append_cases rest m);
              listed = λ v m.
                  ⊎_elim (s.listed v)
                    (λ n.
                      let here = hop_of_fetched (suc u.hop) (query u.table u.column) v n in
                      (source u v head n, omega (arith, here), omega (arith, here, near)))
                    (Memᴰ.append_cases w.path m);
            })
      ]

  walk-IsSound :
      (rounds : ℕ) (w : Walk) (path : List UpstreamColumn)
      → IsSound query max_hops tbl col w
      → walk query max_hops rounds w ≡ some path
      → (u : UpstreamColumn) → Memᴰ u path
      → IsUpstream query tbl col u.table u.column u.hop × (1 ≤ u.hop) × (u.hop ≤ max_hops)
  unfolding walk round path_of
  walk-IsSound zero w path s e = ends w.frontier e
    where
      ends :
          (us : List UpstreamColumn)
          → path_of query max_hops us w ≡ some path
          → (u : UpstreamColumn) → Memᴰ u path
          → IsUpstream query tbl col u.table u.column u.hop × (1 ≤ u.hop) × (u.hop ≤ max_hops)
      ends [] q u m =
          let same : w.path ≡ path = cc q in s.listed u (subst (λ us. Memᴰ u us) (sym same) m)
      ends (v ∷ us) q u m = cc q
  walk-IsSound (suc rounds) w path s e = walk-IsSound rounds _ path (goes w.frontier refl) e
    where
      goes :
          (us : List UpstreamColumn)
          → w.frontier ≡ us
          → IsSound query max_hops tbl col (round query max_hops us w)
      goes [] q = s
      goes (u ∷ us) q = take_first-IsSound u us w q s

  -- Where no query returns more than 30 rows, the walk ends, and every entry that it returns is a column
  -- upstream of the start, at that number of hops, which is from 1 to the limit.
  pub walk_upstream_columns_ends :
      ((t c : String) → IsLimited (query t c))
      → (path : List UpstreamColumn) × (walk_upstream_columns query max_hops tbl col ≡ some path)
        × ((u : UpstreamColumn)
            → Memᴰ u path
            → IsUpstream query tbl col u.table u.column u.hop × (1 ≤ u.hop) × (u.hop ≤ max_hops))
  unfolding walk_upstream_columns total
  walk_upstream_columns_ends limit =
      let first : UpstreamColumn = record { table = tbl; column = col; hop = 0 } in
      let begin : Walk = record { visited = []; path = []; frontier = first ∷ [] } in
      let full : max_hops - 0 ≡ max_hops = omega arith in
      let enough : total max_hops begin.frontier ≤ cost max_hops = omega (arith, ap cost full) in
      let (path, e) = walk_ends query limit max_hops (cost max_hops) begin enough in
      let sound : IsSound query max_hops tbl col begin = record {
        queued = λ u m.
            subst (λ v. IsUpstream query tbl col v.table v.column v.hop)
              (sym (Memᴰ.eq_of_singleton m)) start;
        listed = λ u m. absurd (Memᴰ.not-nil m);
      } in
      (path, e, walk-IsSound (cost max_hops) begin path sound e)
