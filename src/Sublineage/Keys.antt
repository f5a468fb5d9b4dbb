-- ===== src/Sublineage/Keys.antt =====
-- The keys of transformation_lineage/sublineage/cache_keys.py. SHA-256 in hexadecimal digits and
-- `str` of a number are parameters; the ids of the edges are given in the order of the query.
use bricktrace.Prelude.{ℕ, String, List, [], ◌∷◌, Option, none, some}
use bricktrace.Prelude.Text.{◌⊕◌, take}

-- "|".join(parts)
unfoldable pub join_bars : List String → String
unfolding ◌⊕◌
join_bars [] = ""
join_bars (s ∷ []) = s
join_bars (s ∷ t ∷ rest) = s ⊕ "|" ⊕ join_bars (t ∷ rest)

-- The text that the updates of the hash make up.
unfoldable pub hashed_ids : List (Option String) → String
unfolding ◌⊕◌
hashed_ids [] = ""
hashed_ids (none ∷ rest) = "|" ⊕ hashed_ids rest
hashed_ids (some id ∷ rest) = id ⊕ "|" ⊕ hashed_ids rest

module _ (sha256 : String → String) (show : ℕ → String) where
  unfoldable pub compute_version_hash : List (Option String) → String
  unfolding hashed_ids
  compute_version_hash edge_ids = take 32 (sha256 (hashed_ids edge_ids))

  unfoldable pub compute_cache_key : String → String → String → ℕ → ℕ → String → String
  unfolding join_bars
  compute_cache_key src_node_id dst_node_id mode max_depth max_paths version_hash = sha256 (
      join_bars
        (src_node_id ∷ dst_node_id ∷ mode ∷ show max_depth ∷ show max_paths ∷ version_hash ∷ []))
