-- ===== src/Cache/Capability.antt =====
-- backend/server/capability_cache.py: the payloads of the panels, one for each table and tab. The rows
-- of the Delta table are the state and each statement is what it does to them; `up` says whether
-- the warehouse answers during the call. The JSON text of a payload and its length in bytes are
-- parameters. The payload's own `_cache` entry is kept beside it.
pub mod Evict
use bricktrace.Prelude.{
  ℕ, ◌+◌, String, Bool, true, false, ◌&&◌, ◌||◌, not, ◌==◌, eqb, ltb, if◌then◌else◌, List, [], ◌∷◌,
  ◌++◌, Option, none, some,
}
use bricktrace.Validators.Escape.{sql_str}
use bricktrace.Cache.Delta.{literal}

pub record Stored : Type 0 where
  pub table_fqn : String
  pub tab : String
  pub value_json : Option String
  pub cached_at : ℕ
  pub cached_by : String

pub record CapabilityCache : Type 0 where
  pub ready : Bool
  pub rows : List Stored

abbrev pub ttl_seconds : ℕ
ttl_seconds = 86400

abbrev pub max_bytes : ℕ
max_bytes = 256000

-- '{_q(v)}' as the column value that the statement names
unfoldable pub quoted : String → String
unfolding literal sql_str
quoted v = literal (sql_str (some v) none)

unfoldable pub is_for : String → String → Stored → Bool
unfolding quoted
is_for table tab r = r.table_fqn == quoted table && r.tab == quoted tab

unfoldable pub is_of_table : String → Stored → Bool
unfolding quoted
is_of_table table r = r.table_fqn == quoted table

-- SELECT … LIMIT 1
unfoldable pub select_one : (Stored → Bool) → List Stored → Option Stored
select_one p [] = none
select_one p (r ∷ rs) = let rest = select_one p rs in if p r then some r else rest

-- SELECT COUNT(*)
unfoldable pub count : (Stored → Bool) → List Stored → ℕ
count p [] = 0
count p (r ∷ rs) = let rest = count p rs in if p r then 1 + rest else rest

-- DELETE … WHERE p
unfoldable pub delete_where : (Stored → Bool) → List Stored → List Stored
delete_where p [] = []
delete_where p (r ∷ rs) = let rest = delete_where p rs in if p r then rest else r ∷ rest

unfoldable pub update_rows : (Stored → Bool) → (Stored → Stored) → List Stored → List Stored
update_rows p f [] = []
update_rows p f (r ∷ rs) = (if p r then f r else r) ∷ update_rows p f rs

unfoldable pub ensure_ready : Bool → CapabilityCache → CapabilityCache
ensure_ready up c = record c { ready = c.ready || up }

unfoldable pub evict : Bool → String → String → CapabilityCache → CapabilityCache × Bool
unfolding ensure_ready delete_where is_for
evict up table tab c =
    let c = ensure_ready up c in
    if up then (record c { rows = delete_where (is_for table tab) c.rows }, true) else (c, false)

unfoldable pub evict_where : Bool → (Stored → Bool) → CapabilityCache → CapabilityCache × ℕ
unfolding ensure_ready delete_where count
evict_where up p c =
    let c = ensure_ready up c in
    let n = count p c.rows in
    if up
    then if ltb 0 n then (record c { rows = delete_where p c.rows }, n) else (c, n)
    else (c, 0)

unfoldable pub evict_table : Bool → String → CapabilityCache → CapabilityCache × ℕ
unfolding evict_where is_of_table
evict_table up table c = evict_where up (is_of_table table) c

unfoldable pub evict_all : Bool → CapabilityCache → CapabilityCache × ℕ
unfolding evict_where
evict_all up c = evict_where up (λ r. true) c

-- A payload that was read, with its `_cache` block.
pub record Hit {ℓ} (Payload : Type ℓ) : Type ℓ where
  pub payload : Payload
  pub stored_at : ℕ
  pub stored_by : String
  pub stale : Bool

pub data Served {ℓ} (Payload : Type ℓ) : Type ℓ where
  from_cache : Hit Payload → Served Payload
  computed : Payload → Served Payload
  -- The exception of `compute`.
  failed : Served Payload

module _ {ℓ} {Payload : Type ℓ} (dumps : Payload → String) (loads : String → Option Payload)
    (bytes : String → ℕ) where
  -- The row as the caller gets it: no text, an empty one and one that is no JSON give none.
  unfoldable pub hit_of : ℕ → Option Stored → Option (Hit Payload)
  hit_of now none = none
  hit_of now (some r) = elim r.value_json [
    | none ↦ none
    | some text ↦ if text == "" then none else elim (loads text) [
      | none ↦ none
      | some p ↦ some (record {
        payload = p;
        stored_at = r.cached_at;
        stored_by = r.cached_by;
        stale = ltb (r.cached_at + ttl_seconds) now;
      })
    ]
  ]

  unfoldable pub fetch :
      Bool → ℕ → String → String → CapabilityCache → CapabilityCache × Option (Hit Payload)
  unfolding ensure_ready select_one is_for hit_of
  fetch up now table tab c =
      let c = ensure_ready up c in
      if up then (c, hit_of now (select_one (is_for table tab) c.rows)) else (c, none)

  unfoldable pub put :
      Bool → ℕ → String → String → Payload → String → CapabilityCache → CapabilityCache × Bool
  unfolding ensure_ready count is_for update_rows quoted
  put up now table tab value actor c =
      let c = ensure_ready up c in
      let text = some (quoted (dumps value)) in
      let p = is_for table tab in
      let added : Stored = record {
        table_fqn = quoted table;
        tab = quoted tab;
        value_json = text;
        cached_at = now;
        cached_by = quoted actor;
      } in
      let changed =
        update_rows p
          (λ r. record r { value_json = text; cached_at = now; cached_by = quoted actor }) c.rows in
      let rows = if eqb (count p c.rows) 0 then c.rows ++ added ∷ [] else changed in
      if ltb max_bytes (bytes (dumps value))
      then (c, false)
      else if up
      then (record c { rows = rows }, true)
      else (c, false)

  -- Computes, stores and returns; `none` is an exception of `compute`.
  unfoldable pub recompute :
      Bool
      → ℕ
      → String
      → String
      → Option Payload
      → String
      → CapabilityCache
      → CapabilityCache × Served Payload
  unfolding put
  recompute up now table tab none actor c = (c, failed)
  recompute up now table tab (some value) actor c =
      ((put up now table tab value actor c).0, computed value)

  unfoldable pub serve_or_compute :
      Bool
      → ℕ
      → String
      → String
      → Option Payload
      → String
      → Bool
      → CapabilityCache
      → CapabilityCache × Served Payload
  unfolding fetch recompute
  serve_or_compute up now table tab compute actor true c =
      recompute up now table tab compute actor c
  serve_or_compute up now table tab compute actor false c =
      let (c, hit) = fetch up now table tab c in
      let fresh = recompute up now table tab compute actor c in
      elim hit [ none ↦ fresh | some h ↦ (c, from_cache h) ]
