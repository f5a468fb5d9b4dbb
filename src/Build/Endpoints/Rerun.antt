-- ===== src/Build/Endpoints/Rerun.antt =====
-- The rows of one run, and a second build of the same run.
use bricktrace.Prelude.{
  ℕ, String, Bool, true, false, ◌==◌, ◌&&◌, List, [], ◌∷◌, ◌++◌, Option, none, some, ◌≡◌, refl,
  arith, eq_iff, if◌then◌else◌, map, length,
}
use mathlib.Core.List.{flat_map, append-nil}
use bricktrace.Build.Graph.{
  LineageNodeRecord, LineageEdgeRecord, EdgeMeta, read_meta, derive_meta, DeriveMeta,
}
use bricktrace.Build.Endpoints.{
  NodeRow, EdgeRow, RawRow, EndpointRow, validate_run_id, delete_run, nodes_with, endpoint,
  pinned_rows, meta_rows, selected, select_endpoints, count_run, build_edge_endpoints,
}

-- Every row belongs to the run.
unfoldable pub all_of : String → List EndpointRow → Bool
all_of run [] = true
all_of run (r ∷ rows) = r.pipeline_run_id == run && all_of run rows

module _ (run : String) where
  all_of-append :
      (xs ys : List EndpointRow) → all_of run (xs ++ ys) ≡ (all_of run xs && all_of run ys)
  unfolding all_of
  all_of-append [] ys = refl
  all_of-append (r ∷ xs) ys = ground (arith, all_of-append xs ys)

  all_of-flat_map {ℓ} :
      {A : Type ℓ} (f : A → List EndpointRow)
      → ((a : A) → all_of run (f a) ≡ true)
      → (xs : List A) → all_of run (flat_map f xs) ≡ true
  unfolding all_of flat_map
  all_of-flat_map f h [] = refl
  all_of-flat_map f h (x ∷ xs) =
      ground (arith, all_of-append (f x) (flat_map f xs), h x, all_of-flat_map f h xs)

  module _ (nodes_table : List NodeRow) (raw_code_table : List RawRow) (now : String) where
    all_of-endpoints :
        (e : LineageEdgeRecord) (d : DeriveMeta) (src dst : LineageNodeRecord)
        (paths : List (Option String))
        → all_of run (map (endpoint run nodes_table raw_code_table now e d src dst) paths) ≡ true
    unfolding all_of endpoint
    all_of-endpoints e d src dst [] = refl
    all_of-endpoints e d src dst (p ∷ paths) =
        ground (arith, eq_iff run run, all_of-endpoints e d src dst paths)

    all_of-pinned_rows :
        (e : LineageEdgeRecord) (d : DeriveMeta) (pin : Option String)
        → all_of run (pinned_rows run nodes_table raw_code_table now e d pin) ≡ true
    unfolding pinned_rows all_of
    all_of-pinned_rows e d none = refl
    all_of-pinned_rows e d (some pin) =
        all_of-flat_map _
          (λ src.
            all_of-flat_map _ (λ dst. all_of-endpoints e d src dst _)
              (nodes_with run e.dst_id nodes_table))
          (nodes_with run pin nodes_table)

    all_of-meta_rows :
        (e : LineageEdgeRecord) (m : EdgeMeta)
        → all_of run (meta_rows run nodes_table raw_code_table now e m) ≡ true
    unfolding meta_rows all_of
    all_of-meta_rows e read_meta = refl
    all_of-meta_rows e (derive_meta d) = all_of-pinned_rows e d d.pinned

    if_all_of :
        (t : Bool) (rows : List EndpointRow)
        → all_of run rows ≡ true
        → all_of run (if t then rows else []) ≡ true
    unfolding all_of
    if_all_of true rows h = h
    if_all_of false rows h = refl

    pub all_of-select_endpoints :
        (rows : List EdgeRow)
        → all_of run (select_endpoints run nodes_table raw_code_table now rows) ≡ true
    unfolding select_endpoints all_of
    all_of-select_endpoints [] = refl
    all_of-select_endpoints (r ∷ rows) = rw (all_of-append) (
        ground (
          arith,
          if_all_of (selected run nodes_table raw_code_table now r) _
              (all_of-meta_rows r.edge r.edge.edge_meta),
          all_of-select_endpoints rows,
        ))

  delete_run-append :
      (xs ys : List EndpointRow)
      → delete_run run (xs ++ ys) ≡ delete_run run xs ++ delete_run run ys
  unfolding delete_run
  delete_run-append [] ys = refl
  delete_run-append (r ∷ xs) ys = ground (arith, delete_run-append xs ys)

  delete_run-all_of : (ys : List EndpointRow) → all_of run ys ≡ true → delete_run run ys ≡ []
  unfolding delete_run all_of
  delete_run-all_of [] h = refl
  delete_run-all_of (r ∷ ys) h = ground (arith, delete_run-all_of ys)

  delete_run-delete_run :
      (xs : List EndpointRow) → delete_run run (delete_run run xs) ≡ delete_run run xs
  unfolding delete_run
  delete_run-delete_run [] = refl
  delete_run-delete_run (r ∷ xs) = ground (arith, delete_run-delete_run xs)

  -- Behind the rows that were kept, all rows belong to the run: they are what is counted.
  pub count_run-delete_run :
      (xs ys : List EndpointRow)
      → all_of run ys ≡ true
      → count_run run (delete_run run xs ++ ys) ≡ length ys
  unfolding count_run delete_run all_of
  count_run-delete_run [] [] h = refl
  count_run-delete_run [] (r ∷ ys) h = ground (arith, count_run-delete_run [] ys)
  count_run-delete_run (r ∷ xs) ys h = ground (arith, count_run-delete_run xs ys)

  -- Where the run id is valid, a second build of the run, at any later time, leaves the table that
  -- this build alone would have left, and returns the count that it would have returned.
  pub build_edge_endpoints-build_edge_endpoints :
      (nodes_table : List NodeRow) (edges_table : List EdgeRow) (raw_code_table : List RawRow)
      (now later : String) (endpoints_table : List EndpointRow)
      → validate_run_id run ≡ true
      → (first : List EndpointRow × ℕ) × (build_edge_endpoints run nodes_table edges_table
            raw_code_table now endpoints_table
          ≡ some first)
        × (build_edge_endpoints run nodes_table edges_table raw_code_table later first.0
            ≡ build_edge_endpoints run nodes_table edges_table raw_code_table later endpoints_table)
  unfolding build_edge_endpoints
  build_edge_endpoints-build_edge_endpoints nodes_table edges_table raw_code_table now later
        endpoints_table valid =
      let new = select_endpoints run nodes_table raw_code_table now edges_table in
      let kept = delete_run run endpoints_table in
      let gone : delete_run run (kept ++ new) ≡ kept = cc (
        delete_run-append kept new,
        delete_run-delete_run endpoints_table,
        delete_run-all_of new (all_of-select_endpoints nodes_table raw_code_table now edges_table),
        append-nil kept,
      ) in
      ((kept ++ new, count_run run (kept ++ new)), rw valid refl, rw (valid, gone) refl)
