-- ===== src/Build/Graph/Closed.antt =====
-- The graph of one artifact is closed: its edges join nodes of it, and its node ids are distinct.
use bricktrace.Prelude.{
  String, Bool, true, false, ◌==◌, ◌||◌, ◌&&◌, not, if◌then◌else◌, List, [], ◌∷◌, ◌++◌, Option,
  none, some, ◌≡◌, refl, elem, distinct, distinct-append, elem-append, eq_iff, arith, Bool-cases,
  inl, inr, ap,
}
use bricktrace.Prelude.Text.{◌⊕◌, like_prefix, like_prefix-⊕}
use bricktrace.Validators.Url.{truthy}
use bricktrace.Validators.Escape.{text_of}
use bricktrace.Build.Graph.{
  LineageNodeRecord, LineageEdgeRecord, EdgeMeta, read_meta, derive_meta, Mapping, Parse, Built,
  ids_of, or_text, put_node, col_node_id, add_table, add_tables, read_edge, derive_edge, table_node,
  xfm_id, transformation_node, output_node, source_node, add_sourced, add_mapping, add_mappings,
  build_graph_from_parse_results,
}

-- The source that a derive edge is pinned to is a node, and not the one that the edge leads to.
unfoldable pub pin_closed : List String → String → Option String → Bool
unfolding elem
pin_closed ids dst none = true
pin_closed ids dst (some s) = elem s ids && not (s == dst)

unfoldable pub meta_closed : List String → LineageEdgeRecord → EdgeMeta → Bool
unfolding pin_closed like_prefix
meta_closed ids e read_meta = e.edge_type == "read"
meta_closed ids e (derive_meta d) =
    (e.edge_type == "derive" && like_prefix "xfm:" e.src_id)
    && (like_prefix "col:" e.dst_id && pin_closed ids e.dst_id d.pinned)

unfoldable pub edge_closed : List String → LineageEdgeRecord → Bool
unfolding meta_closed elem
edge_closed ids e = (elem e.src_id ids && elem e.dst_id ids) && meta_closed ids e e.edge_meta

unfoldable pub edges_closed : List String → List LineageEdgeRecord → Bool
unfolding edge_closed
edges_closed ids [] = true
edges_closed ids (e ∷ es) = edge_closed ids e && edges_closed ids es

-- Every element of the first list stands in the second.
abbrev pub Within : List String → List String → Type 0
Within xs ys = (x : String) → elem x xs ≡ true → elem x ys ≡ true

module _ (xs ys : List String) (w : Within xs ys) where
  pin_closed_mono :
      (dst : String) (s : Option String) → pin_closed xs dst s ≡ true → pin_closed ys dst s ≡ true
  unfolding pin_closed
  pin_closed_mono dst none h = refl
  pin_closed_mono dst (some s) h = ground (arith, w s)

  meta_closed_mono :
      (e : LineageEdgeRecord) (m : EdgeMeta) → meta_closed xs e m ≡ true → meta_closed ys e m ≡ true
  unfolding meta_closed
  meta_closed_mono e read_meta h = h
  meta_closed_mono e (derive_meta d) h = ground (arith, pin_closed_mono e.dst_id d.pinned)

  edge_closed_mono : (e : LineageEdgeRecord) → edge_closed xs e ≡ true → edge_closed ys e ≡ true
  unfolding edge_closed
  edge_closed_mono e h = ground (arith, w e.src_id, w e.dst_id, meta_closed_mono e e.edge_meta)

  pub edges_closed_mono :
      (es : List LineageEdgeRecord) → edges_closed xs es ≡ true → edges_closed ys es ≡ true
  unfolding edges_closed
  edges_closed_mono [] h = refl
  edges_closed_mono (e ∷ es) h = ground (arith, edge_closed_mono e, edges_closed_mono es)

pub edges_closed-append :
    (ids : List String) (xs ys : List LineageEdgeRecord)
    → edges_closed ids (xs ++ ys) ≡ (edges_closed ids xs && edges_closed ids ys)
unfolding edges_closed
edges_closed-append ids [] ys = refl
edges_closed-append ids (e ∷ xs) ys = ground (arith, edges_closed-append ids xs ys)

pub ids_of-append : (xs ys : List LineageNodeRecord) → ids_of (xs ++ ys) ≡ ids_of xs ++ ids_of ys
unfolding ids_of
ids_of-append [] ys = refl
ids_of-append (n ∷ xs) ys = ap (λ zs. n.node_id ∷ zs) (ids_of-append xs ys)

module _ (n : LineageNodeRecord) (ns : List LineageNodeRecord) where
  put_node-distinct : distinct (ids_of ns) ≡ true → distinct (ids_of (put_node n ns)) ≡ true
  unfolding put_node ids_of
  put_node-distinct h =
      ground (arith, ids_of-append ns (n ∷ []), distinct-append (ids_of ns) n.node_id)

  elem-put_node :
      (x : String) → elem x (ids_of (put_node n ns)) ≡ (elem x (ids_of ns) || x == n.node_id)
  unfolding put_node ids_of elem
  elem-put_node x = ground (
    arith,
    ids_of-append ns (n ∷ []),
    elem-append x (ids_of ns) (n.node_id ∷ []),
    eq_iff x n.node_id,
  )

-- The node ids are distinct, the artifact's own node is one of them, and every edge is closed.
pub record IsClosed (xfm : String) (b : Built) : Type 0 where
  pub ids_distinct : distinct (ids_of b.nodes) ≡ true
  pub has_xfm : elem xfm (ids_of b.nodes) ≡ true
  pub closed : edges_closed (ids_of b.nodes) b.edges ≡ true

pub put_node-IsClosed :
    (xfm : String) (n : LineageNodeRecord) (b : Built)
    → IsClosed xfm b
    → IsClosed xfm (record b { nodes = put_node n b.nodes })
put_node-IsClosed xfm n b c = record {
  ids_distinct = put_node-distinct n b.nodes c.ids_distinct;
  has_xfm = ground (arith, elem-put_node n b.nodes xfm, c.has_xfm);
  closed =
      edges_closed_mono (ids_of b.nodes) (ids_of (put_node n b.nodes))
        (λ x h. ground (arith, elem-put_node n b.nodes x)) b.edges c.closed;
}

-- More edges, each closed.
pub append-IsClosed :
    (xfm : String) (es : List LineageEdgeRecord) (b : Built)
    → IsClosed xfm b
    → edges_closed (ids_of b.nodes) es ≡ true
    → IsClosed xfm (record b { edges = b.edges ++ es })
append-IsClosed xfm es b c h = record {
  ids_distinct = c.ids_distinct;
  has_xfm = c.has_xfm;
  closed = ground (arith, edges_closed-append (ids_of b.nodes) b.edges es, c.closed);
}

elem_put_self :
    (n : LineageNodeRecord) (ns : List LineageNodeRecord)
    → elem n.node_id (ids_of (put_node n ns)) ≡ true
elem_put_self n ns = ground (arith, elem-put_node n ns n.node_id, eq_iff n.node_id n.node_id)

-- The id of a column node begins with `col:`.
pub col_node_id_is_Column :
    (fqn : Option String) (column artifact tag : String)
    → like_prefix "col:" (col_node_id fqn column artifact tag) ≡ true
unfolding col_node_id
col_node_id_is_Column fqn column artifact tag = elim (Bool-cases (truthy fqn)) [
  | inl e ↦ elim (Bool-cases (column == "")) [
    | inl f ↦ rw (e, f) (like_prefix-⊕ "col:" (tag ⊕ ":" ⊕ artifact ⊕ ":unknown"))
    | inr f ↦ rw (e, f) (like_prefix-⊕ "col:" (text_of fqn ⊕ "::" ⊕ column))
  ]
  | inr e ↦ rw e (
      like_prefix-⊕ "col:"
        (tag ⊕ ":" ⊕ artifact ⊕ ":" ⊕ (if column == "" then "unknown" else column)))
]

no_pin : (ids : List String) (dst : String) → pin_closed ids dst none ≡ true
unfolding pin_closed
no_pin ids dst = refl

if_IsClosed :
    (xfm : String) (t : Bool) {a b : Built}
    → IsClosed xfm a
    → IsClosed xfm b
    → IsClosed xfm (if t then a else b)
if_IsClosed xfm true a b = a
if_IsClosed xfm false a b = b

pinned :
    (ids : List String) (dst s : String)
    → elem s ids ≡ true
    → (s == dst) ≡ false
    → pin_closed ids dst (some s) ≡ true
unfolding pin_closed
pinned ids dst s i h = ground arith

module _ (sha256 : String → String) (classify : String → String) where
  read_edge_is_Closed :
      (kind artifact key src : String) (ids : List String)
      → elem (xfm_id sha256 classify artifact) ids ≡ true
      → elem src ids ≡ true
      → edge_closed ids (read_edge sha256 classify kind artifact key src) ≡ true
  unfolding edge_closed meta_closed read_edge
  read_edge_is_Closed kind artifact key src ids x s = ground arith

  add_table-IsClosed :
      (artifact tbl : String) (b : Built)
      → IsClosed (xfm_id sha256 classify artifact) b
      → IsClosed (xfm_id sha256 classify artifact) (add_table sha256 classify artifact b tbl)
  unfolding add_table edges_closed edge_closed meta_closed read_edge
  add_table-IsClosed artifact tbl b c =
      let n = table_node sha256 classify artifact tbl in
      let c1 = put_node-IsClosed _ n b c in
      append-IsClosed _ (read_edge sha256 classify "read" artifact tbl n.node_id ∷ []) _ c1
        (ground (arith, elem_put_self n b.nodes, c1.has_xfm))

  add_tables-IsClosed :
      (artifact : String) (tbls : List String) (b : Built)
      → IsClosed (xfm_id sha256 classify artifact) b
      → IsClosed (xfm_id sha256 classify artifact) (add_tables sha256 classify artifact tbls b)
  unfolding add_tables
  add_tables-IsClosed artifact [] b c = c
  add_tables-IsClosed artifact (tbl ∷ tbls) b c =
      add_tables-IsClosed artifact tbls _ (add_table-IsClosed artifact tbl b c)

  module _ (p : Parse) (default_table_fqn : Option String) where
    derive_edge_is_Closed :
        (m : Mapping) (src : Option String) (ids : List String)
        → elem (xfm_id sha256 classify p.artifact_id) ids ≡ true
        → elem (output_node sha256 classify p default_table_fqn m).node_id ids ≡ true
        → pin_closed ids (output_node sha256 classify p default_table_fqn m).node_id src ≡ true
        → edge_closed ids (derive_edge sha256 classify p default_table_fqn m src) ≡ true
    unfolding edge_closed meta_closed derive_edge xfm_id output_node
    derive_edge_is_Closed m src ids x o h = ground (
      arith,
      like_prefix-⊕ "xfm:" p.artifact_id,
      col_node_id_is_Column _ (or_text m.output_column "unknown") p.artifact_id "out",
    )

    -- The node of the output column is there, and with it the edges of one mapping.
    add_sourced-IsClosed :
        (b : Built) (m : Mapping)
        → IsClosed (xfm_id sha256 classify p.artifact_id) b
        → IsClosed
            (xfm_id sha256 classify p.artifact_id)
            (add_sourced sha256 classify p default_table_fqn b m)
    unfolding add_sourced edges_closed
    add_sourced-IsClosed b m c =
        let xfm = xfm_id sha256 classify p.artifact_id in
        let out = output_node sha256 classify p default_table_fqn m in
        let src = source_node sha256 classify p default_table_fqn m in
        let b1 : Built = record b { nodes = put_node out b.nodes } in
        let c1 = put_node-IsClosed xfm out b c in
        elim (Bool-cases (src.node_id == out.node_id)) [
          | inl e ↦ rw e c1
          | inr e ↦
              let c2 = put_node-IsClosed xfm src b1 c1 in
              let s = elem_put_self src b1.nodes in
              let ids = ids_of (put_node src b1.nodes) in
              let o : elem out.node_id ids ≡ true =
                ground (arith, elem-put_node src b1.nodes out.node_id, elem_put_self out b.nodes) in
              let pin : pin_closed ids out.node_id (some src.node_id) ≡ true =
                pinned ids out.node_id src.node_id s e in
              let d = derive_edge_is_Closed m (some src.node_id) ids c2.has_xfm o pin in
              let r : edge_closed ids
                    (read_edge sha256 classify "col_read" p.artifact_id src.node_id src.node_id)
                  ≡ true =
                read_edge_is_Closed "col_read" p.artifact_id src.node_id src.node_id ids c2.has_xfm
                  s in
              rw e (append-IsClosed xfm _ _ c2 (ground (arith, d, r)))
        ]

    add_mapping-IsClosed :
        (b : Built) (m : Mapping)
        → IsClosed (xfm_id sha256 classify p.artifact_id) b
        → IsClosed
            (xfm_id sha256 classify p.artifact_id)
            (add_mapping sha256 classify p default_table_fqn b m)
    unfolding add_mapping edges_closed
    add_mapping-IsClosed b m c =
        let xfm = xfm_id sha256 classify p.artifact_id in
        let out = output_node sha256 classify p default_table_fqn m in
        let c1 = put_node-IsClosed xfm out b c in
        let d =
          derive_edge_is_Closed m none _ c1.has_xfm (elem_put_self out b.nodes)
            (no_pin (ids_of (put_node out b.nodes)) out.node_id) in
        if_IsClosed xfm (truthy m.source_column) (add_sourced-IsClosed b m c)
          (append-IsClosed xfm _ _ c1 (ground (arith, d)))

    add_mappings-IsClosed :
        (ms : List Mapping) (b : Built)
        → IsClosed (xfm_id sha256 classify p.artifact_id) b
        → IsClosed
            (xfm_id sha256 classify p.artifact_id)
            (add_mappings sha256 classify p default_table_fqn ms b)
    unfolding add_mappings
    add_mappings-IsClosed [] b c = c
    add_mappings-IsClosed (m ∷ ms) b c = add_mappings-IsClosed ms _ (add_mapping-IsClosed b m c)

    -- In the graph that is built from a parse, the node ids are distinct; the artifact's own node is
    -- one of them; every edge joins two nodes of the graph; a derive edge leads from the artifact to
    -- a column, and a source that it is pinned to is a node of the graph other than that column.
    pub build_graph_from_parse_results-IsClosed :
        IsClosed
          (xfm_id sha256 classify p.artifact_id)
          (build_graph_from_parse_results sha256 classify p default_table_fqn)
    unfolding build_graph_from_parse_results transformation_node ids_of distinct elem edges_closed
    build_graph_from_parse_results-IsClosed = add_mappings-IsClosed p.column_mappings _ (
        add_tables-IsClosed p.artifact_id p.table_references _ (record {
          ids_distinct = refl;
          has_xfm = ground (
            arith,
            eq_iff (xfm_id sha256 classify p.artifact_id) (xfm_id sha256 classify p.artifact_id),
          );
          closed = refl;
        }))
