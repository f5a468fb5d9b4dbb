-- ===== src/Tests/Nearest.antt =====
-- Tests and examples of RootCause.Tables.Nearest.
use bricktrace.Prelude.{
  ℕ, ◌≤◌, ◌==◌, ◌≡◌, ◌≢◌, ◌↔◌, ◌++◌, refl, ap, true, List, [], ◌∷◌, Option, some, String, elem,
  eq_iff, arith, if◌then◌else◌, Bool-cases, inl, inr, elem-append,
}
use mathlib.Core.List.{flat_map, map, map-append}
use bricktrace.Prelude.Dict.{lookup, insert, known}
use bricktrace.RootCause.Tables.{
  walk_upstream_tables, walk_tables, table_round, next_tables, add_sources,
}
use bricktrace.RootCause.Tables.Rows.{names}
use bricktrace.RootCause.Tables.Advance.{IsAnswered, IsAt}
use bricktrace.RootCause.Tables.Nearest.{walk_upstream_tables_iff}

-- c is read by b, b by a, and c by a.
abbrev reads : String → List String
reads t = if t == "a" then "b" ∷ "c" ∷ [] else (if t == "b" then "c" ∷ [] else [])

abbrev query : List String → Option (List (Option String))
query frontier = some (map some (flat_map reads frontier))

walked : walk_upstream_tables query "a" 6 ≡ ("b", 1) ∷ ("c", 1) ∷ []
unfolding walk_upstream_tables walk_tables table_round next_tables add_sources known insert lookup
    flat_map
walked = refl

names-append : (xs ys : List (Option String)) → names (xs ++ ys) ≡ names xs ++ names ys
unfolding names
names-append [] ys = refl
names-append (x ∷ xs) ys = ground (arith, names-append xs ys)

names-reads : (t : String) → names (map some (reads t)) ≡ reads t
unfolding names
names-reads t = elim (Bool-cases (t == "a")) [
  | inl e ↦ rw e refl
  | inr e ↦ elim (Bool-cases (t == "b")) [ inl f ↦ rw (e, f) refl | inr f ↦ rw (e, f) refl ]
]

names-flat_map : (ts : List String) → names (map some (flat_map reads ts)) ≡ flat_map reads ts
unfolding flat_map names
names-flat_map [] = refl
names-flat_map (t ∷ ts) = rw (map-append some, names-append, names-reads t, names-flat_map ts) refl

into_flat_map :
    (t s : String) (ts : List String)
    → elem t ts ≡ true
    → elem s (reads t) ≡ true
    → elem s (flat_map reads ts) ≡ true
unfolding flat_map elem
into_flat_map t s [] h k = h
into_flat_map t s (u ∷ ts) h k = ground (
  arith,
  elem-append s (reads u) (flat_map reads ts),
  into_flat_map t s ts,
  eq_iff t u,
  λ (e : t ≡ u). ap (λ x. elem s (reads x)) e,
)

out_of_flat_map :
    (s : String) (ts : List String)
    → elem s (flat_map reads ts) ≡ true
    → (t : String) × (elem t ts ≡ true) × (elem s (reads t) ≡ true)
unfolding flat_map elem
out_of_flat_map s [] h = cc h
out_of_flat_map s (u ∷ ts) h = elim (Bool-cases (elem s (reads u))) [
  | inl e ↦ (u, ground (arith, eq_iff u u), e)
  | inr e ↦
      let (t, f, k) =
        out_of_flat_map s ts (ground (arith, elem-append s (reads u) (flat_map reads ts))) in
      (t, ground arith, k)
]

query-IsAnswered : IsAnswered reads query
query-IsAnswered frontier = (
  map some (flat_map reads frontier),
  refl,
  λ t s h k. rw (names-flat_map frontier) (into_flat_map t s frontier h k),
  λ s h. out_of_flat_map s frontier (rw (names-flat_map frontier) at h),
)

abbrev c : String
c = "c"

walk_upstream_tables_iff_example :
    (lookup c (walk_upstream_tables query "a" 6) ≡ some 1)
    ↔ (IsAt reads "a" 1 c × (1 ≤ 1) × (1 ≤ 6) × (c ≢ "a") × ((n : ℕ) → IsAt reads "a" n c → 1 ≤ n))
walk_upstream_tables_iff_example = walk_upstream_tables_iff reads query query-IsAnswered "a" 6 c 1
