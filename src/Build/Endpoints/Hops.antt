-- ===== src/Build/Endpoints/Hops.antt =====
-- The rows that the graph phases write: one for each derive edge with a source.
use bricktrace.Prelude.{
  ◌≤◌, String, true, false, ◌==◌, List, [], ◌∷◌, ◌++◌, Option, none, some, ◌≡◌, refl, ap, ◌∙◌, elem,
  elem-append, distinct, arith, eq_iff, if◌then◌else◌, Bool-cases, inl, inr, map, length,
}
use mathlib.Core.List.{flat_map, map-append}
use bricktrace.Build.Graph.{
  LineageNodeRecord, LineageEdgeRecord, EdgeMeta, read_meta, derive_meta, DeriveMeta, Parse, Built,
  ids_of, build_graph_from_parse_results,
}
use bricktrace.Build.Graph.Closed.{
  ids_of-append, edges_closed, edge_closed, meta_closed, pin_closed, edges_closed_mono,
  edges_closed-append, build_graph_from_parse_results-IsClosed,
}
use bricktrace.Build.Endpoints.{
  NodeRow, EdgeRow, RawRow, EndpointRow, validate_run_id, delete_run, nodes_with, paths_with,
  endpoint, pinned_rows, meta_rows, selected, select_endpoints, build_edge_endpoints, dedupe,
  append_nodes, append_edges, extend_all, graph_phases,
}
use bricktrace.Build.Endpoints.Rerun.{count_run-delete_run, all_of-select_endpoints}
use bricktrace.Build.Endpoints.Dedupe.{elem-dedupe, distinct-dedupe}
use bricktrace.Build.Endpoints.Pins.{
  hop_of, pinned_hops, meta_hops, hops, no_loop, no_node_of, no_edge_of, no_loop-hops, one_joined,
  if_nothing,
}

-- What the join finds among the rows of a run that has written nothing before.
module _ (run : String) where
  skip_nodes :
      (id : String) (table : List NodeRow) (ns : List LineageNodeRecord)
      → no_node_of run table ≡ true
      → nodes_with run id (append_nodes run ns table) ≡ nodes_with run id (append_nodes run ns [])
  unfolding append_nodes nodes_with no_node_of
  skip_nodes id [] ns h = refl
  skip_nodes id (r ∷ table) ns h = ground (arith, skip_nodes id table ns)

  none_with :
      (id : String) (ns : List LineageNodeRecord)
      → elem id (ids_of ns) ≡ false
      → nodes_with run id (append_nodes run ns []) ≡ []
  unfolding append_nodes nodes_with ids_of elem
  none_with id [] h = refl
  none_with id (n ∷ ns) h =
      ground (arith, none_with id ns, eq_iff id n.node_id, eq_iff n.node_id id)

  one_with :
      (id : String) (ns : List LineageNodeRecord)
      → distinct (ids_of ns) ≡ true
      → elem id (ids_of ns) ≡ true
      → (n : LineageNodeRecord) × (nodes_with run id (append_nodes run ns []) ≡ n ∷ [])
        × (n.node_id ≡ id)
  unfolding append_nodes nodes_with ids_of elem distinct
  one_with id [] d h = cc h
  one_with id (n ∷ ns) d h = elim (Bool-cases (n.node_id == id)) [
    | inl e ↦
        let k : elem id (ids_of ns) ≡ false = ground (arith, (eq_iff n.node_id id).0 e) in
        (n, ground (arith, eq_iff run run, none_with id ns k), (eq_iff n.node_id id).0 e)
    | inr e ↦
        let rest =
          one_with id ns (ground arith)
            (ground (arith, eq_iff n.node_id id, eq_iff id n.node_id)) in
        (rest.0, ground (arith, rest.1), rest.2)
  ]

  module _ (raw_code_table : List RawRow) (now : String) where
    module _ (old : List NodeRow) (ns : List LineageNodeRecord) (fresh : no_node_of run old ≡ true)
        (d : distinct (ids_of ns) ≡ true)
        (one_path : (artifact : String) → length (paths_with run artifact raw_code_table) ≤ 1) where
      found_node :
          (id : String)
          → elem id (ids_of ns) ≡ true
          → (n : LineageNodeRecord) × (nodes_with run id (append_nodes run ns old) ≡ n ∷ [])
            × (n.node_id ≡ id)
      found_node id h =
          let one = one_with id ns d h in (one.0, skip_nodes id old ns fresh ∙ one.1, one.2)

      hops-pinned_rows :
          (e : LineageEdgeRecord) (m : DeriveMeta) (s : Option String)
          → elem e.dst_id (ids_of ns) ≡ true
          → pin_closed (ids_of ns) e.dst_id s ≡ true
          → map hop_of (pinned_rows run (append_nodes run ns old) raw_code_table now e m s)
            ≡ pinned_hops e s
      unfolding pinned_rows pinned_hops pin_closed flat_map hop_of endpoint
      hops-pinned_rows e m none h k = refl
      hops-pinned_rows e m (some pin) h k =
          let src = found_node pin (ground arith) in
          let dst = found_node e.dst_id h in
          let path =
            one_joined (paths_with run e.artifact_id raw_code_table) (one_path e.artifact_id) in
          rw (src.1, dst.1, path.1, src.2) refl

      hops-meta_rows :
          (e : LineageEdgeRecord) (m : EdgeMeta)
          → elem e.dst_id (ids_of ns) ≡ true
          → meta_closed (ids_of ns) e m ≡ true
          → map hop_of (meta_rows run (append_nodes run ns old) raw_code_table now e m)
            ≡ meta_hops e m
      unfolding meta_rows meta_hops meta_closed
      hops-meta_rows e read_meta h k = refl
      hops-meta_rows e (derive_meta d) h k = hops-pinned_rows e d d.pinned h (ground arith)

      selected_derive :
          (e : LineageEdgeRecord) (d : DeriveMeta)
          → meta_closed (ids_of ns) e (derive_meta d) ≡ true
          → selected run
              (append_nodes run ns old)
              raw_code_table
              now
              (record { pipeline_run_id = run; edge = e })
            ≡ true
      unfolding selected meta_closed
      selected_derive e d k = ground (arith, eq_iff run run)

      hops_of_edge :
          (e : LineageEdgeRecord) (m : EdgeMeta)
          → elem e.dst_id (ids_of ns) ≡ true
          → meta_closed (ids_of ns) e m ≡ true
          → map hop_of (
              if selected run
                (append_nodes run ns old)
                raw_code_table
                now
                (record { pipeline_run_id = run; edge = e })
              then meta_rows run (append_nodes run ns old) raw_code_table now e m
              else [])
            ≡ meta_hops e m
      unfolding meta_rows meta_hops
      hops_of_edge e read_meta h k = if_nothing _
      hops_of_edge e (derive_meta d) h k =
          rw (selected_derive e d k) (hops-meta_rows e (derive_meta d) h k)

      hops-select_endpoints :
          (es : List LineageEdgeRecord)
          → edges_closed (ids_of ns) es ≡ true
          → map hop_of (
              select_endpoints run
                (append_nodes run ns old)
                raw_code_table
                now
                (append_edges run es []))
            ≡ hops es
      unfolding select_endpoints append_edges hops edges_closed edge_closed
      hops-select_endpoints [] c = refl
      hops-select_endpoints (e ∷ es) c =
          let here = hops_of_edge e e.edge_meta (ground arith) (ground arith) in
          let later = hops-select_endpoints es (ground arith) in
          rw (map-append hop_of, here, later) refl

  skip_edges :
      (ns : List NodeRow) (raw_code_table : List RawRow) (now : String) (old : List EdgeRow)
      (es : List LineageEdgeRecord)
      → no_edge_of run old ≡ true
      → select_endpoints run ns raw_code_table now (append_edges run es old)
        ≡ select_endpoints run ns raw_code_table now (append_edges run es [])
  unfolding select_endpoints append_edges no_edge_of selected
  skip_edges ns raw_code_table now [] es h = refl
  skip_edges ns raw_code_table now (r ∷ old) es h =
      let other : (r.pipeline_run_id == run) ≡ false = ground arith in
      rw other (skip_edges ns raw_code_table now old es (ground arith))

-- What was built from all artifacts is closed, as each part is.
module _ (sha256 : String → String) (classify : String → String) (default_tbl : Option String) where
  extend_all_is_Closed :
      (ps : List Parse) (b : Built)
      → edges_closed (ids_of b.nodes) b.edges ≡ true
      → edges_closed
          (ids_of (extend_all sha256 classify default_tbl ps b).nodes)
          (extend_all sha256 classify default_tbl ps b).edges
        ≡ true
  unfolding extend_all
  extend_all_is_Closed [] b h = h
  extend_all_is_Closed (p ∷ ps) b h =
      let c = build_graph_from_parse_results sha256 classify p default_tbl in
      let ok = (build_graph_from_parse_results-IsClosed sha256 classify p default_tbl).closed in
      let ids = ids_of (b.nodes ++ c.nodes) in
      let left =
        edges_closed_mono (ids_of b.nodes) ids
          (λ x i.
            ground (
              arith,
              ids_of-append b.nodes c.nodes,
              elem-append x (ids_of b.nodes) (ids_of c.nodes),
            ))
          b.edges h in
      let right =
        edges_closed_mono (ids_of c.nodes) ids
          (λ x i.
            ground (
              arith,
              ids_of-append b.nodes c.nodes,
              elem-append x (ids_of b.nodes) (ids_of c.nodes),
            ))
          c.edges ok in
      extend_all_is_Closed ps _
        (ground (arith, edges_closed-append ids b.edges c.edges, left, right))

  -- For parsed artifacts in any order, a valid run id that no row of the nodes and the edges has yet,
  -- and raw code with at most one row for each artifact of the run: the graph phases leave the
  -- endpoints of the other runs, and behind them exactly one row for each derive edge with a source,
  -- in the order of the edges, from that source to the column of that edge; no row leads from a node to
  -- itself; and the count that is returned is the number of these rows.
  pub graph_phases-hops :
      (run : String) (parses : List Parse) (nodes_table : List NodeRow) (edges_table : List EdgeRow)
      (raw_code_table : List RawRow) (now : String) (endpoints_table : List EndpointRow)
      → validate_run_id run ≡ true
      → no_node_of run nodes_table ≡ true
      → no_edge_of run edges_table ≡ true
      → ((artifact : String) → length (paths_with run artifact raw_code_table) ≤ 1)
      → (rows : List EndpointRow) × (graph_phases sha256 classify default_tbl run parses nodes_table
            edges_table raw_code_table now endpoints_table
          ≡ some (delete_run run endpoints_table ++ rows, length rows))
        × (map hop_of rows
            ≡ hops
                (extend_all sha256 classify default_tbl parses
                  (record { nodes = []; edges = [] })).edges)
        × (no_loop (map hop_of rows) ≡ true)
  unfolding graph_phases build_edge_endpoints edges_closed
  graph_phases-hops run parses nodes_table edges_table raw_code_table now endpoints_table valid
        nodes edges path =
      let b : Built =
        extend_all sha256 classify default_tbl parses (record { nodes = []; edges = [] }) in
      let ns = dedupe b.nodes in
      let table = append_nodes run ns nodes_table in
      let rows =
        select_endpoints run table raw_code_table now (append_edges run b.edges edges_table) in
      let c =
        edges_closed_mono (ids_of b.nodes) (ids_of ns) (λ x i. elem-dedupe x b.nodes ∙ i) b.edges
          (extend_all_is_Closed parses (record { nodes = []; edges = [] }) refl) in
      let all =
        ap (map hop_of) (skip_edges run table raw_code_table now edges_table b.edges edges)
        ∙ hops-select_endpoints run raw_code_table now nodes_table ns nodes
            (distinct-dedupe b.nodes) path b.edges c in
      (
        rows,
        rw
            (
              valid,
              count_run-delete_run run endpoints_table rows (
                  all_of-select_endpoints run table raw_code_table now
                    (append_edges run b.edges edges_table)),
            )
            refl,
        all,
        ap no_loop all ∙ no_loop-hops (ids_of ns) b.edges c,
      )
