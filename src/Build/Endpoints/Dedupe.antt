-- ===== src/Build/Endpoints/Dedupe.antt =====
-- The nodes of several artifacts without repetitions: dedupe keeps the ids, each once.
use bricktrace.Prelude.{
  String, true, ◌&&◌, not, List, [], ◌∷◌, ◌≡◌, refl, elem, elem-append, distinct, distinct-append,
  arith, eq_iff, ◌∙◌, Bool-cases, inl, inr,
}
use mathlib.Core.List.{reverse, reverse-cons}
use bricktrace.Build.Graph.{LineageNodeRecord, ids_of}
use bricktrace.Build.Graph.Closed.{ids_of-append}
use bricktrace.Build.Endpoints.{dedupe_loop, dedupe}

elem-reverse :
    (x : String) (ns : List LineageNodeRecord) → elem x (ids_of (reverse ns)) ≡ elem x (ids_of ns)
unfolding ids_of elem
elem-reverse x [] = refl
elem-reverse x (n ∷ ns) =
    rw
      (
        reverse-cons n ns,
        ids_of-append (reverse ns) (n ∷ []),
        elem-append x (ids_of (reverse ns)) (n.node_id ∷ []),
      )
      (ground (arith, elem-reverse x ns))

distinct-reverse :
    (ns : List LineageNodeRecord) → distinct (ids_of (reverse ns)) ≡ distinct (ids_of ns)
unfolding ids_of distinct
distinct-reverse [] = refl
distinct-reverse (n ∷ ns) =
    rw
      (
        reverse-cons n ns,
        ids_of-append (reverse ns) (n ∷ []),
        distinct-append (ids_of (reverse ns)) n.node_id,
      )
      (ground (arith, distinct-reverse ns, elem-reverse n.node_id ns))

elem-dedupe_loop :
    (x : String) (seen : List String) (ns : List LineageNodeRecord)
    → elem x (ids_of (dedupe_loop seen ns)) ≡ (elem x (ids_of ns) && not (elem x seen))
unfolding dedupe_loop ids_of elem
elem-dedupe_loop x seen [] = refl
elem-dedupe_loop x seen (n ∷ ns) = elim (Bool-cases (elem n.node_id seen)) [
  | inl e ↦ rw e (ground (arith, elem-dedupe_loop x seen ns, eq_iff x n.node_id))
  | inr e ↦ rw e (ground (arith, elem-dedupe_loop x (n.node_id ∷ seen) ns, eq_iff x n.node_id))
]

distinct-dedupe_loop :
    (seen : List String) (ns : List LineageNodeRecord)
    → distinct (ids_of (dedupe_loop seen ns)) ≡ true
unfolding dedupe_loop ids_of distinct elem
distinct-dedupe_loop seen [] = refl
distinct-dedupe_loop seen (n ∷ ns) = elim (Bool-cases (elem n.node_id seen)) [
  | inl e ↦ rw e (distinct-dedupe_loop seen ns)
  | inr e ↦ rw e (
      ground (
        arith,
        distinct-dedupe_loop (n.node_id ∷ seen) ns,
        elem-dedupe_loop n.node_id (n.node_id ∷ seen) ns,
        eq_iff n.node_id n.node_id,
      ))
]

-- A node is kept for every id, and for no other.
pub elem-dedupe :
    (x : String) (ns : List LineageNodeRecord) → elem x (ids_of (dedupe ns)) ≡ elem x (ids_of ns)
unfolding dedupe elem
elem-dedupe x ns = ground (
  arith,
  elem-reverse x (dedupe_loop [] (reverse ns)),
  elem-dedupe_loop x [] (reverse ns),
  elem-reverse x ns,
)

pub distinct-dedupe : (ns : List LineageNodeRecord) → distinct (ids_of (dedupe ns)) ≡ true
unfolding dedupe
distinct-dedupe ns =
    distinct-reverse (dedupe_loop [] (reverse ns)) ∙ distinct-dedupe_loop [] (reverse ns)
