-- ===== src/Lineage/Edges.antt =====
-- The edges that backend/lineage_service.py builds from the rows of the lineage table. A set of
-- pairs is a list without repetitions.
pub mod Cycles
use bricktrace.Prelude.{
  ℕ, String, Bool, true, false, ◌==◌, ◌&&◌, ◌||◌, not, if◌then◌else◌, List, [], ◌∷◌, ◌++◌, Option,
  none, some, elem,
}
use bricktrace.Prelude.Dict.{Dict, lookup, insert}
use bricktrace.Validators.Url.{truthy}
use bricktrace.Validators.Escape.{text_of}
use bricktrace.Lineage.Refs.{parse_lineage_ref, entity_key}

pub record LineageRow : Type 0 where
  pub source_table_full_name : Option String
  pub source_path : Option String
  pub source_type : Option String
  pub target_table_full_name : Option String
  pub target_path : Option String
  pub target_type : Option String
  pub entity_type : Option String
  pub entity_id : Option String
  pub workspace_id : Option String

abbrev pub Edge : Type 0
Edge = String × String

-- A reference as the branches test it: None where its text is empty.
unfoldable pub kept : Option String → Option String
unfolding truthy text_of
kept s = if truthy s then s else none

unfoldable pub source_ref : LineageRow → Option String
unfolding parse_lineage_ref kept
source_ref r = kept (parse_lineage_ref r.source_table_full_name r.source_path r.source_type).0

unfoldable pub target_ref : LineageRow → Option String
unfolding parse_lineage_ref kept
target_ref r = kept (parse_lineage_ref r.target_table_full_name r.target_path r.target_type).0

-- The key of the row's entity, where it has a type and an id.
unfoldable pub key_of : LineageRow → Option String
unfolding truthy text_of entity_key
key_of r =
    if truthy r.entity_type && truthy r.entity_id
    then some (entity_key (text_of r.entity_type) (text_of r.entity_id) r.workspace_id)
    else none

-- info["targets"].add(tref)
unfoldable pub add_target : Option String → Option String → Dict (List String) → Dict (List String)
unfolding lookup insert
add_target (some key) (some tref) targets =
    insert key (tref ∷ elim (lookup key targets) [ none ↦ [] | some old ↦ old ]) targets
add_target _ _ targets = targets

unfoldable pub targets_by_entity : List LineageRow → Dict (List String)
unfolding add_target key_of target_ref
targets_by_entity [] = []
targets_by_entity (r ∷ rows) = add_target (key_of r) (target_ref r) (targets_by_entity rows)

-- sref in targets_by_entity.get(key, set())
unfoldable pub writes : Dict (List String) → String → String → Bool
unfolding lookup elem
writes targets key sref = elim (lookup key targets) [ none ↦ false | some refs ↦ elem sref refs ]

-- The edges of one row: through the entity, or direct.
unfoldable pub edges_through :
    Dict (List String) → String → Option String → Option String → List Edge
unfolding writes
edges_through targets key none none = []
edges_through targets key none (some tref) = (key, tref) ∷ []
edges_through targets key (some sref) none =
    if writes targets key sref then [] else (sref, key) ∷ []
edges_through targets key (some sref) (some tref) =
    if writes targets key sref
    then (key, tref) ∷ (sref, tref) ∷ []
    else (key, tref) ∷ (sref, key) ∷ []

unfoldable pub edges_direct : Option String → Option String → List Edge
edges_direct (some sref) (some tref) = (sref, tref) ∷ []
edges_direct _ _ = []

unfoldable pub edges_by :
    Dict (List String) → Option String → Option String → Option String → List Edge
unfolding edges_through edges_direct
edges_by targets (some key) sref tref = edges_through targets key sref tref
edges_by targets none sref tref = edges_direct sref tref

unfoldable pub edges_of_row : Dict (List String) → LineageRow → List Edge
unfolding edges_by key_of source_ref target_ref
edges_of_row targets r = edges_by targets (key_of r) (source_ref r) (target_ref r)

unfoldable pub has_edge : Edge → List Edge → Bool
has_edge e [] = false
has_edge (s, t) ((s', t') ∷ es) = (s == s' && t == t') || has_edge (s, t) es

-- edge_set.add(edge), for each edge
unfoldable pub add_edges : List Edge → List Edge → List Edge
unfolding has_edge
add_edges [] edges = edges
add_edges (e ∷ es) edges = add_edges es (if has_edge e edges then edges else edges ++ e ∷ [])

unfoldable pub collect_edges : Dict (List String) → List LineageRow → List Edge → List Edge
unfolding add_edges edges_of_row
collect_edges targets [] edges = edges
collect_edges targets (r ∷ rows) edges =
    collect_edges targets rows (add_edges (edges_of_row targets r) edges)

unfoldable pub edge_set : List LineageRow → List Edge
unfolding collect_edges targets_by_entity
edge_set rows = collect_edges (targets_by_entity rows) rows []

-- The pair of a row with two different ends.
unfoldable pub pair_of : Option String → Option String → List Edge
pair_of (some sref) (some tref) = if sref == tref then [] else (sref, tref) ∷ []
pair_of _ _ = []

unfoldable pub collect_pairs : List LineageRow → List Edge → List Edge
unfolding add_edges pair_of source_ref target_ref
collect_pairs [] edges = edges
collect_pairs (r ∷ rows) edges =
    collect_pairs rows (add_edges (pair_of (source_ref r) (target_ref r)) edges)
