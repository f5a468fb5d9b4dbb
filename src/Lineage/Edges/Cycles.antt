-- ===== src/Lineage/Edges/Cycles.antt =====
-- Which cycles the edges of backend/lineage_service.py can have.
use mathlib.Core.List.{Memᴰ}
use mathlib.Core.List.Memᴰ
use bricktrace.Prelude.{
  String, Bool, true, false, ◌==◌, eq_iff, eq_refl, ◌&&◌, ◌||◌, if◌then◌else◌, List, [], ◌∷◌, ◌++◌,
  Option, none, some, elem, ◌≡◌, ◌≢◌, refl, sym, ap, ◌∙◌, arith, ◌⊎◌, inl, inr, Bool-cases,
}
use bricktrace.Prelude.Dict.{Dict, lookup, lookup-insert}
use bricktrace.Lineage.Edges.{
  LineageRow, Edge, source_ref, target_ref, key_of, add_target, targets_by_entity, writes,
  edges_through, edges_direct, edges_by, edges_of_row, has_edge, add_edges, collect_edges, edge_set,
}

has_edge-append :
    (e : Edge) (es fs : List Edge) → has_edge e (es ++ fs) ≡ (has_edge e es || has_edge e fs)
unfolding has_edge
has_edge-append (s, t) [] fs = refl
has_edge-append (s, t) ((s', t') ∷ es) fs = ground (arith, has_edge-append (s, t) es fs)

or_absent : (a b : Bool) → b ≡ false → a ≡ (a || (b || false))
or_absent a b e = ground arith

or_nil : (a : Bool) → a ≡ (a || false)
or_nil a = ground arith

has_edge-add :
    (e f : Edge) (edges : List Edge)
    → has_edge e (if has_edge f edges then edges else edges ++ f ∷ [])
      ≡ (has_edge e edges || has_edge e (f ∷ []))
unfolding has_edge
has_edge-add (s, t) (s', t') edges = elim (Bool-cases (has_edge (s', t') edges)) [
  | inl h ↦ rw h (elim (Bool-cases (s == s' && t == t')) [
    | inl e ↦
        let same_s = (eq_iff s s').0 (ground arith) in
        let same_t = (eq_iff t t').0 (ground arith) in
        let known : has_edge (s, t) edges ≡ true = rw (same_s, same_t) h in rw known
    | inr e ↦ or_absent _ _ e
  ])
  | inr h ↦ rw h (has_edge-append (s, t) edges ((s', t') ∷ []))
]

has_edge-cons :
    (e f : Edge) (es : List Edge) → has_edge e (f ∷ es) ≡ (has_edge e (f ∷ []) || has_edge e es)
unfolding has_edge
has_edge-cons (s, t) (s', t') es = ground arith

or_assoc : (a b c : Bool) → ((a || b) || c) ≡ (a || (b || c))
or_assoc a b c = ground arith

has_edge-add_edges :
    (e : Edge) (es edges : List Edge)
    → has_edge e (add_edges es edges) ≡ (has_edge e edges || has_edge e es)
unfolding add_edges has_edge
has_edge-add_edges e [] edges = or_nil (has_edge e edges)
has_edge-add_edges e (f ∷ es) edges =
    has_edge-add_edges e es (if has_edge f edges then edges else edges ++ f ∷ [])
    ∙ ap (λ b. b || has_edge e es) (has_edge-add e f edges)
    ∙ or_assoc (has_edge e edges) (has_edge e (f ∷ [])) (has_edge e es)
    ∙ ap (λ b. has_edge e edges || b) (sym (has_edge-cons e f es))

row_of_edge :
    (e : Edge) (targets : Dict (List String)) (rows : List LineageRow) (edges : List Edge)
    → has_edge e (collect_edges targets rows edges) ≡ true
    → (has_edge e edges ≡ true)
      ⊎ ((r : LineageRow) × Memᴰ r rows × (has_edge e (edges_of_row targets r) ≡ true))
unfolding collect_edges
row_of_edge e targets [] edges h = inl h
row_of_edge e targets (r ∷ rows) edges h =
    elim (row_of_edge e targets rows (add_edges (edges_of_row targets r) edges) h) [
      | inl old ↦ elim (Bool-cases (has_edge e edges)) [
        | inl t ↦ inl t
        | inr f ↦ inr (
          r,
          Memᴰ.head refl,
          from_right _ _ f (sym (has_edge-add_edges e (edges_of_row targets r) edges) ∙ old),
        )
      ]
      | inr (s, i, t) ↦ inr (s, Memᴰ.tail i, t)
    ]
  where
    from_right : (a b : Bool) → a ≡ false → (a || b) ≡ true → b ≡ true
    from_right a b f t = ground arith

edge_of_row :
    (e : Edge) (targets : Dict (List String)) (rows : List LineageRow) (edges : List Edge)
    (r : LineageRow)
    → (has_edge e edges ≡ true) ⊎ (Memᴰ r rows × (has_edge e (edges_of_row targets r) ≡ true))
    → has_edge e (collect_edges targets rows edges) ≡ true
unfolding collect_edges
edge_of_row e targets [] edges r (inl h) = h
edge_of_row e targets [] edges r (inr (i, h)) = absurd (Memᴰ.not-nil i)
edge_of_row e targets (s ∷ rows) edges r (inl h) =
    edge_of_row e targets rows _ r
      (inl (rw (has_edge-add_edges e (edges_of_row targets s) edges, h)))
edge_of_row e targets (s ∷ rows) edges r (inr (i, h)) = elim (Memᴰ.cases_cons i) [
  | inl same ↦
      edge_of_row e targets rows _ r
        (inl (rw (has_edge-add_edges e (edges_of_row targets s) edges, sym same, h) (right_true _)))
  | inr j ↦ edge_of_row e targets rows _ r (inr (j, h))
]
  where
    right_true : (b : Bool) → (b || true) ≡ true
    right_true b = ground arith

writes-add_target :
    (key : String) (ref : String) (k t : Option String) (targets : Dict (List String))
    → (writes targets key ref ≡ true) ⊎ ((k ≡ some key) × (t ≡ some ref))
    → writes (add_target k t targets) key ref ≡ true
unfolding writes add_target elem
writes-add_target key ref (some k) (some t) targets h = ground (
  arith,
  eq_iff key k,
  eq_iff k key,
  eq_iff ref t,
  lookup-insert k key (t ∷ elim (lookup k targets) [ none ↦ [] | some old ↦ old ]) targets,
)
writes-add_target key ref (some k) none targets h = ground arith
writes-add_target key ref none t targets h = ground arith

first_or_rest :
    (a b x y : String) (es : List Edge)
    → has_edge (a, b) ((x, y) ∷ es) ≡ true
    → ((x ≡ a) × (y ≡ b)) ⊎ (has_edge (a, b) es ≡ true)
unfolding has_edge
first_or_rest a b x y es h = elim (Bool-cases (a == x && b == y)) [
  | inl e ↦ inl (sym ((eq_iff a x).0 (ground arith)), sym ((eq_iff b y).0 (ground arith)))
  | inr e ↦ inr (ground arith)
]

writes_target :
    (rows : List LineageRow) (r : LineageRow) (key ref : String)
    → Memᴰ r rows
    → key_of r ≡ some key
    → target_ref r ≡ some ref
    → writes (targets_by_entity rows) key ref ≡ true
unfolding targets_by_entity
writes_target [] r key ref i k t = absurd (Memᴰ.not-nil i)
writes_target (s ∷ rows) r key ref i k t =
    writes-add_target key ref (key_of s) (target_ref s) (targets_by_entity rows)
      (elim (Memᴰ.cases_cons i) [
        | inl same ↦ inr (ap key_of (sym same) ∙ k, ap target_ref (sym same) ∙ t)
        | inr j ↦ inl (writes_target rows r key ref j k t)
      ])

-- How an edge can come from a row: from its entity to its target, from its source to its target, or
-- from its source to its entity, which then writes no such table.
abbrev IsFrom :
    Dict (List String) → String → String → Option String → Option String → Option String → Type 0
IsFrom targets a b k s t =
    ((k ≡ some a) × (t ≡ some b))
    ⊎ ((s ≡ some a) × ((t ≡ some b) ⊎ ((k ≡ some b) × (writes targets b a ≡ false))))

cases_through :
    (targets : Dict (List String)) (a b key : String) (s t : Option String)
    → has_edge (a, b) (edges_through targets key s t) ≡ true
    → IsFrom targets a b (some key) s t
unfolding edges_through has_edge
cases_through targets a b key none none h = cc
cases_through targets a b key none (some t) h = elim (first_or_rest a b key t [] h) [
  | inl (x, y) ↦ inl (ap some x, ap some y)
  | inr h ↦ cc
]
cases_through targets a b key (some s) none h = elim (Bool-cases (writes targets key s)) [
  | inl w ↦ cc (rw w at h)
  | inr w ↦ elim (first_or_rest a b s key [] (rw w at h)) [
    | inl (x, y) ↦ inr (ap some x, inr (ap some y, rw (sym x, sym y) w))
    | inr h ↦ cc
  ]
]
cases_through targets a b key (some s) (some t) h = elim (Bool-cases (writes targets key s)) [
  | inl w ↦ elim (first_or_rest a b key t ((s, t) ∷ []) (rw w at h)) [
    | inl (x, y) ↦ inl (ap some x, ap some y)
    | inr h' ↦ elim (first_or_rest a b s t [] h') [
      | inl (x, y) ↦ inr (ap some x, inl (ap some y))
      | inr h ↦ cc
    ]
  ]
  | inr w ↦ elim (first_or_rest a b key t ((s, key) ∷ []) (rw w at h)) [
    | inl (x, y) ↦ inl (ap some x, ap some y)
    | inr h' ↦ elim (first_or_rest a b s key [] h') [
      | inl (x, y) ↦ inr (ap some x, inr (ap some y, rw (sym x, sym y) w))
      | inr h ↦ cc
    ]
  ]
]

cases_direct :
    (targets : Dict (List String)) (a b : String) (k s t : Option String)
    → has_edge (a, b) (edges_direct s t) ≡ true
    → IsFrom targets a b k s t
unfolding edges_direct has_edge
cases_direct targets a b k (some s) (some t) h = elim (first_or_rest a b s t [] h) [
  | inl (x, y) ↦ inr (ap some x, inl (ap some y))
  | inr h ↦ cc
]
cases_direct targets a b k none t h = cc
cases_direct targets a b k (some s) none h = cc

cases_by :
    (targets : Dict (List String)) (a b : String) (k s t : Option String)
    → has_edge (a, b) (edges_by targets k s t) ≡ true
    → IsFrom targets a b k s t
unfolding edges_by
cases_by targets a b none s t h = cases_direct targets a b none s t h
cases_by targets a b (some key) s t h = cases_through targets a b key s t h

edge_cases :
    (targets : Dict (List String)) (a b : String) (r : LineageRow)
    → has_edge (a, b) (edges_of_row targets r) ≡ true
    → IsFrom targets a b (key_of r) (source_ref r) (target_ref r)
unfolding edges_of_row
edge_cases targets a b r h = cases_by targets a b (key_of r) (source_ref r) (target_ref r) h

row_of :
    (e : Edge) (rows : List LineageRow)
    → has_edge e (edge_set rows) ≡ true
    → (r : LineageRow) × Memᴰ r rows × (has_edge e (edges_of_row (targets_by_entity rows) r) ≡ true)
unfolding edge_set has_edge
row_of e rows h = elim (row_of_edge e (targets_by_entity rows) rows [] h) [
  | inl h ↦ cc
  | inr found ↦ found
]

-- A row that leads to a table from a name that no row has as its source is one of that entity.
forth_row :
    (rows : List LineageRow) (k t : String)
    → ((r : LineageRow) → Memᴰ r rows → (source_ref r ≢ some k) × (target_ref r ≢ some k))
    → has_edge (k, t) (edge_set rows) ≡ true
    → writes (targets_by_entity rows) k t ≡ true
forth_row rows k t apart h =
    let (r, i, drawn) = row_of (k, t) rows h in
    elim (edge_cases (targets_by_entity rows) k t r drawn) [
      | inl (key, target) ↦ writes_target rows r k t i key target
      | inr (source, _) ↦ absurd ((apart r i).0 source)
    ]

back_row :
    (rows : List LineageRow) (k t : String)
    → ((r : LineageRow) → Memᴰ r rows → (source_ref r ≢ some k) × (target_ref r ≢ some k))
    → has_edge (t, k) (edge_set rows) ≡ true
    → writes (targets_by_entity rows) k t ≡ false
back_row rows k t apart h =
    let (r, i, drawn) = row_of (t, k) rows h in
    elim (edge_cases (targets_by_entity rows) t k r drawn) [
      | inl (_, target) ↦ absurd ((apart r i).1 target)
      | inr (_, inl target) ↦ absurd ((apart r i).1 target)
      | inr (_, inr (_, unwritten)) ↦ unwritten
    ]

-- Where no row's source or target is called `k`, as no table is called like an entity's key, an
-- edge from `k` to a table and one from the table back to `k` are never both drawn: a table
-- that an entity writes is not also drawn as feeding it.
pub no_back_edge :
    (rows : List LineageRow) (k t : String)
    → ((r : LineageRow) → Memᴰ r rows → (source_ref r ≢ some k) × (target_ref r ≢ some k))
    → has_edge (k, t) (edge_set rows) ≡ true
    → has_edge (t, k) (edge_set rows) ≡ false
no_back_edge rows k t apart forth = elim (Bool-cases (has_edge (t, k) (edge_set rows))) [
  | inl back ↦ cc (forth_row rows k t apart forth, back_row rows k t apart back)
  | inr e ↦ e
]

loop_drawn :
    (targets : Dict (List String)) (key ref : String) (k s t : Option String)
    → k ≡ some key
    → s ≡ some ref
    → t ≡ some ref
    → writes targets key ref ≡ true
    → has_edge (ref, ref) (edges_by targets k s t) ≡ true
unfolding edges_by edges_through has_edge
loop_drawn targets key ref k s t k_is s_is t_is w = rw (k_is, s_is, t_is, w, eq_refl ref) (any_or _)
  where
    any_or : (b : Bool) → (b || true) ≡ true
    any_or b = ground arith

-- One row of an entity whose source and target are the same table draws an edge from the table to
-- itself.
pub self_read_is_a_loop :
    (rows : List LineageRow) (r : LineageRow) (k t : String)
    → Memᴰ r rows
    → key_of r ≡ some k
    → source_ref r ≡ some t
    → target_ref r ≡ some t
    → has_edge (t, t) (edge_set rows) ≡ true
unfolding edge_set
self_read_is_a_loop rows r k t i key source target =
    let written = writes_target rows r k t i key target in
    edge_of_row (t, t) (targets_by_entity rows) rows [] r
      (inr (i, loop_drawn (targets_by_entity rows) k t _ _ _ key source target written))
