-- ===== src/Lineage/Service.antt =====
-- The in-process cache, the traces and the clients of backend/lineage_service.py, for one caller at a
-- time. The cache holds the entries that have not expired; what a fetch gives is an argument.
pub mod Traces
use bricktrace.Prelude.{
  ℕ, ◌+◌, String, Bool, true, false, ◌==◌, not, eqb, if◌then◌else◌, List, [], ◌∷◌, Option, none,
  some, elem,
}
use bricktrace.Prelude.Text.{◌⊕◌, after_prefix}
use bricktrace.Prelude.Dict.{Dict, lookup, insert, erase, known}
use bricktrace.Validators.Url.{truthy}
use bricktrace.Validators.Escape.{text_of}
use bricktrace.Lineage.Edges.{Edge}

pub data Status : Type 0 where
  orphan root leaf connected : Status

-- The counts of a table: edges that end and that start at it.
unfoldable pub count_up : String → List Edge → ℕ
count_up table [] = 0
count_up table ((s, t) ∷ es) = let rest = count_up table es in if t == table then rest + 1 else rest

unfoldable pub count_down : String → List Edge → ℕ
count_down table [] = 0
count_down table ((s, t) ∷ es) =
    let rest = count_down table es in if s == table then rest + 1 else rest

unfoldable pub lineage_status : ℕ → ℕ → Status
lineage_status up down =
    if eqb up 0
    then (if eqb down 0 then orphan else root)
    else if eqb down 0
    then leaf
    else connected

pub record Counted : Type 0 where
  pub table : String
  pub upstream_count : ℕ
  pub downstream_count : ℕ
  pub status : Status

unfoldable pub classify_table_nodes : List String → List Edge → List Counted
unfolding count_up count_down lineage_status
classify_table_nodes [] edges = []
classify_table_nodes (t ∷ ts) edges =
    record {
      table = t;
      upstream_count = count_up t edges;
      downstream_count = count_down t edges;
      status = lineage_status (count_up t edges) (count_down t edges);
    }
    ∷ classify_table_nodes ts edges

-- invalidate_cache(prefix)
unfoldable pub invalidate_cache {ℓ} : {V : Type ℓ} → String → Dict V → Dict V
unfolding after_prefix
invalidate_cache prefix [] = []
invalidate_cache prefix ((k, v) ∷ cache) =
    let rest = invalidate_cache prefix cache in
    elim (after_prefix prefix k) [ some _ ↦ rest | none ↦ (k, v) ∷ rest ]

unfoldable pub evict_cache_entry {ℓ} : {V : Type ℓ} → String → Dict V → Dict V × Bool
unfolding known lookup erase
evict_cache_entry key cache = if known cache key then (erase key cache, true) else (cache, false)

pub record Answer {ℓ} (Graph : Type ℓ) : Type ℓ where
  pub graph : Graph
  pub is_cached : Bool

-- `_cache_get` of a caller that may skip the cache.
unfoldable pub cached {ℓ} : {V : Type ℓ} → Bool → String → Dict V → Option V
unfolding lookup
cached true key cache = none
cached false key cache = lookup key cache

-- A fetched result, kept where it may be; `none` is an exception of the fetch.
unfoldable pub fetched {ℓ} :
    {Graph : Type ℓ}
    → (Graph → Bool)
    → String
    → Option Graph
    → Dict Graph
    → Dict Graph × Option (Answer Graph)
unfolding insert
fetched keeps key none cache = (cache, none)
fetched keeps key (some g) cache =
    (if keeps g then insert key g cache else cache, some (record { graph = g; is_cached = false }))

unfoldable pub answer {ℓ} :
    {Graph : Type ℓ}
    → (Graph → Bool)
    → String
    → Option Graph
    → Option Graph
    → Dict Graph
    → Dict Graph × Option (Answer Graph)
unfolding fetched
answer keeps key (some g) fetch cache = (cache, some (record { graph = g; is_cached = true }))
answer keeps key none fetch cache = fetched keeps key fetch cache

-- Whatever was fetched is kept.
unfoldable pub cached_fetch {ℓ} :
    {V : Type ℓ} → String → Option V → Bool → Dict V → Dict V × Option (Answer V)
unfolding cached answer
cached_fetch key fetch skip_cache cache =
    answer (λ v. true) key (cached skip_cache key cache) fetch cache

module _ {ℓ} {Graph : Type ℓ} (truncated lineage_ok : Graph → Bool) where
  -- A trace is kept only where it is complete.
  unfoldable pub get_lineage_trace :
      String → Bool → Option Graph → Dict Graph → Dict Graph × Option (Answer Graph)
  unfolding cached answer ◌⊕◌
  get_lineage_trace seed skip_cache fetch cache =
      let key = "trace:v2:" ⊕ seed in
      answer (λ g. not (truncated g)) key (cached skip_cache key cache) fetch cache

  unfoldable pub table_key : String → Option String → String
  unfolding ◌⊕◌ truthy text_of
  table_key catalog schema =
      if truthy schema then "lineage:" ⊕ catalog ⊕ "." ⊕ text_of schema else "lineage:" ⊕ catalog

  unfoldable pub get_table_lineage :
      String → Option String → Bool → Option Graph → Dict Graph → Dict Graph × Option (Answer Graph)
  unfolding cached answer table_key
  get_table_lineage catalog schema skip_cache fetch cache =
      let key = table_key catalog schema in
      answer lineage_ok key (cached skip_cache key cache) fetch cache

-- Whose client reads a user's data.
pub data Reader : Type 0 where
  application : Reader
  user : String → Reader
  identity_unavailable : Reader

unfoldable pub get_read_client : Bool → String → Reader
get_read_client enforce token =
    if enforce then (if token == "" then identity_unavailable else user token) else application
