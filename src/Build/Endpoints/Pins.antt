-- ===== src/Build/Endpoints/Pins.antt =====
-- The hops that derive edges stand for, and tables without rows of a run.
use bricktrace.Prelude.{
  ◌≤◌, String, Bool, true, false, ◌==◌, ◌&&◌, not, List, [], ◌∷◌, ◌++◌, Option, none, some, ◌≡◌,
  refl, arith, if◌then◌else◌, map, length,
}
use bricktrace.Build.Graph.{LineageEdgeRecord, EdgeMeta, read_meta, derive_meta}
use bricktrace.Build.Graph.Closed.{edges_closed, edge_closed, meta_closed, pin_closed}
use bricktrace.Build.Endpoints.{NodeRow, EdgeRow, EndpointRow, left_join}

-- A hop: the source node, the destination node and the edge.
abbrev pub Hop : Type 0
Hop = String × String × String

unfoldable pub hop_of : EndpointRow → Hop
hop_of r = (r.src_node_id, r.dst_node_id, r.edge_id)

unfoldable pub pinned_hops : LineageEdgeRecord → Option String → List Hop
pinned_hops e none = []
pinned_hops e (some pin) = (pin, e.dst_id, e.edge_id) ∷ []

unfoldable pub meta_hops : LineageEdgeRecord → EdgeMeta → List Hop
unfolding pinned_hops
meta_hops e read_meta = []
meta_hops e (derive_meta d) = pinned_hops e d.pinned

-- The hops of the derive edges that are pinned to a source.
unfoldable pub hops : List LineageEdgeRecord → List Hop
unfolding meta_hops
hops [] = []
hops (e ∷ es) = meta_hops e e.edge_meta ++ hops es

-- No hop leads from a node to itself.
unfoldable pub no_loop : List Hop → Bool
no_loop [] = true
no_loop ((src, dst, edge) ∷ hs) = not (src == dst) && no_loop hs

-- No row of the table belongs to the run.
unfoldable pub no_node_of : String → List NodeRow → Bool
no_node_of run [] = true
no_node_of run (r ∷ rows) = not (r.pipeline_run_id == run) && no_node_of run rows

unfoldable pub no_edge_of : String → List EdgeRow → Bool
no_edge_of run [] = true
no_edge_of run (r ∷ rows) = not (r.pipeline_run_id == run) && no_edge_of run rows

no_loop-append : (xs ys : List Hop) → no_loop (xs ++ ys) ≡ (no_loop xs && no_loop ys)
unfolding no_loop
no_loop-append [] ys = refl
no_loop-append (h ∷ xs) ys = ground (arith, no_loop-append xs ys)

no_loop-meta_hops :
    (ids : List String) (e : LineageEdgeRecord) (m : EdgeMeta)
    → meta_closed ids e m ≡ true
    → no_loop (meta_hops e m) ≡ true
unfolding no_loop meta_hops meta_closed pin_closed pinned_hops
no_loop-meta_hops ids e read_meta h = refl
no_loop-meta_hops ids e (derive_meta d) h = go d.pinned (ground arith)
  where
    go : (s : Option String) → pin_closed ids e.dst_id s ≡ true → no_loop (pinned_hops e s) ≡ true
    go none k = refl
    go (some pin) k = ground arith

pub no_loop-hops :
    (ids : List String) (es : List LineageEdgeRecord)
    → edges_closed ids es ≡ true
    → no_loop (hops es) ≡ true
unfolding no_loop hops edges_closed edge_closed
no_loop-hops ids [] h = refl
no_loop-hops ids (e ∷ es) h = ground (
  arith,
  no_loop-append (meta_hops e e.edge_meta) (hops es),
  no_loop-meta_hops ids e e.edge_meta,
  no_loop-hops ids es,
)

pub one_joined :
    (paths : List (Option String))
    → length paths ≤ 1
    → (p : Option String) × (left_join paths ≡ p ∷ [])
unfolding left_join
one_joined [] h = (none, refl)
one_joined (p ∷ []) h = (p, refl)
one_joined (p ∷ q ∷ rest) h = (p, ground (arith, h))

pub if_nothing : (t : Bool) → map hop_of (if t then [] else []) ≡ []
if_nothing true = refl
if_nothing false = refl
