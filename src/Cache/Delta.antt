-- ===== src/Cache/Delta.antt =====
-- backend/cache_service.py: the cache table shared by the replicas. The rows of the Delta table are
-- the state; a statement's effect on them is written out where the method sends it. `up` says
-- whether the warehouse answers during the call: where it does not, every statement raises. The
-- hash, the JSON text of a value, the compression and the length in bytes are parameters.
pub mod Reads
pub mod Recent
use bricktrace.Prelude.{
  ℕ, ◌+◌, ◌-◌, String, Bool, true, false, ◌&&◌, ◌||◌, not, ◌==◌, eqb, ltb, leb, if◌then◌else◌, List,
  [], ◌∷◌, ◌++◌, Option, none, some, length, take,
}
use bricktrace.Prelude.Text.{◌⊕◌, after_prefix}
use bricktrace.Validators.Escape.{sql_str}
use bricktrace.Validators.Escape.Read.{read_literal}

pub record Row : Type 0 where
  pub cache_key : String
  pub cache_ns : String
  pub value_json : Option String
  pub created_at : ℕ
  pub expires_at : ℕ
  pub hit_count : ℕ

-- A buffered hit count of one key.
pub record Hits : Type 0 where
  pub hit_key : String
  pub hit_ns : String
  pub count : ℕ

-- `_ready`, the table, and the hit buffer with the time of its last flush.
pub record Cache : Type 0 where
  pub ready : Bool
  pub rows : List Row
  pub hit_buffer : List Hits
  pub last_flush : ℕ

abbrev pub gzip_marker : String
gzip_marker = "gz1:"

abbrev pub ns_max_len : ℕ
ns_max_len = 100

abbrev pub max_value_bytes : ℕ
max_value_bytes = 256000

abbrev pub hit_flush_interval : ℕ
hit_flush_interval = 300

abbrev pub hit_buffer_max_keys : ℕ
hit_buffer_max_keys = 500

-- The value of a quoted literal in a statement: what the reader of '…' makes of its inside.
unfoldable pub literal : String → String
unfolding read_literal ◌⊕◌
literal inside = elim (read_literal (inside ⊕ "'")) [ none ↦ "" | some (value, rest) ↦ value ]

-- The namespace as it stands in the key column.
unfoldable pub column_of : String → String
unfolding literal sql_str
column_of namespace = literal (sql_str (some namespace) (some ns_max_len))

unfoldable pub matches : String → String → Row → Bool
matches hk ns r = r.cache_key == hk && r.cache_ns == ns

unfoldable pub is_live : ℕ → Row → Bool
is_live now r = ltb now r.expires_at

-- SELECT … LIMIT 1
unfoldable pub first_where : (Row → Bool) → List Row → Option Row
first_where p [] = none
first_where p (r ∷ rs) = let rest = first_where p rs in if p r then some r else rest

-- SELECT COUNT(*)
unfoldable pub count_where : (Row → Bool) → List Row → ℕ
count_where p [] = 0
count_where p (r ∷ rs) = let rest = count_where p rs in if p r then 1 + rest else rest

-- UPDATE … SET f WHERE p
unfoldable pub update_where : (Row → Bool) → (Row → Row) → List Row → List Row
update_where p f [] = []
update_where p f (r ∷ rs) = (if p r then f r else r) ∷ update_where p f rs

-- MERGE … WHEN MATCHED THEN UPDATE SET f WHEN NOT MATCHED THEN INSERT r
unfoldable pub merge : (Row → Bool) → (Row → Row) → Row → List Row → List Row
unfolding count_where update_where
merge p f r rows = if eqb (count_where p rows) 0 then rows ++ r ∷ [] else update_where p f rows

unfoldable pub add_hit : String → String → List Hits → List Hits
add_hit hk ns [] = record { hit_key = hk; hit_ns = ns; count = 1 } ∷ []
add_hit hk ns (h ∷ hs) =
    if h.hit_key == hk && h.hit_ns == ns
    then record h { count = h.count + 1 } ∷ hs
    else h ∷ add_hit hk ns hs

-- CASE WHEN … ELSE 0 END: the first case that matches
unfoldable pub increment : List Hits → Row → ℕ
increment [] r = 0
increment (h ∷ hs) r =
    let rest = increment hs r in
    if r.cache_key == h.hit_key && r.cache_ns == h.hit_ns then h.count else rest

unfoldable pub is_key_of : List Hits → Row → Bool
is_key_of [] r = false
is_key_of (h ∷ hs) r = r.cache_key == h.hit_key || is_key_of hs r

-- The table is made on the first call that reaches the warehouse; a failure is swallowed.
unfoldable pub ensure_table : Bool → Cache → Cache
ensure_table up c = record c { ready = c.ready || up }

-- A hit is buffered; the whole buffer is written in one statement when it is due, and dropped where
-- that statement fails.
unfoldable pub note_hit : Bool → ℕ → String → String → Cache → Cache
unfolding add_hit update_where increment is_key_of
note_hit up clock hk ns c =
    let buffer = add_hit hk ns c.hit_buffer in
    let flushed = record c {
      hit_buffer = [];
      last_flush = clock;
      rows =
          if up
          then update_where (is_key_of buffer)
              (λ r. record r { hit_count = r.hit_count + increment buffer r }) c.rows
          else c.rows;
    } in
    if leb hit_flush_interval (clock - c.last_flush) || leb hit_buffer_max_keys (length buffer)
    then flushed
    else record c { hit_buffer = buffer }

unfoldable pub is_expired : ℕ → Row → Bool
is_expired now r = leb r.expires_at now

unfoldable pub holds_value : Row → Bool
holds_value r = elim r.value_json [ none ↦ false | some _ ↦ true ]

unfoldable pub keep_rows : (Row → Bool) → List Row → List Row
keep_rows p [] = []
keep_rows p (r ∷ rs) = let rest = keep_rows p rs in if p r then r ∷ rest else rest

-- The MERGE of `set`.
unfoldable pub store : ℕ → String → String → String → ℕ → List Row → List Row
unfolding merge matches literal sql_str
store now hk ns serialized ttl_seconds rows =
    let stored = some (literal (sql_str (some serialized) none)) in
    merge (matches hk ns)
      (λ r. record r { value_json = stored; expires_at = now + ttl_seconds; hit_count = 0 })
      (record {
        cache_key = hk;
        cache_ns = ns;
        value_json = stored;
        created_at = now;
        expires_at = now + ttl_seconds;
        hit_count = 0;
      })
      rows

module _ {ℓ} {Value : Type ℓ} (hash : String → String) (dumps : Value → String)
    (loads : String → Option Value) (pack : String → String) (unpack : String → Option String)
    (bytes : String → ℕ) where
  -- The shorter of the text and its packed form.
  unfoldable pub encode : String → String
  unfolding ◌⊕◌
  encode serialized =
      let packed = gzip_marker ⊕ pack serialized in
      if ltb (bytes packed) (bytes serialized) then packed else serialized

  -- `none` is an exception.
  unfoldable pub decode : String → Option Value
  unfolding after_prefix
  decode stored = elim (after_prefix gzip_marker stored) [
    | none ↦ loads stored
    | some body ↦ elim (unpack body) [ none ↦ none | some raw ↦ loads raw ]
  ]

  -- The value of a row that the query gave.
  unfoldable pub value_of : Option Row → Option Value
  unfolding decode
  value_of none = none
  value_of (some r) = elim r.value_json [ none ↦ none | some stored ↦ decode stored ]

  -- `now` is the warehouse's time, `clock` the process's.
  unfoldable pub get : Bool → ℕ → ℕ → String → String → Cache → Cache × Option Value
  unfolding ensure_table column_of first_where matches is_live value_of note_hit
  get up now clock key namespace c =
      let c = ensure_table up c in
      let hk = hash key in
      let ns = column_of namespace in
      let value = value_of (first_where (λ r. matches hk ns r && is_live now r) c.rows) in
      if up
      then elim value [ none ↦ (c, none) | some v ↦ (note_hit up clock hk ns c, some v) ]
      else (c, none)

  unfoldable pub set : Bool → ℕ → String → Value → ℕ → String → Cache → Cache × Bool
  unfolding ensure_table column_of encode
  set up now key value ttl_seconds namespace c =
      let c = ensure_table up c in
      let serialized = encode (dumps value) in
      if ltb max_value_bytes (bytes serialized)
      then (c, false)
      else if up
      then (
        record c {
          rows = store now (hash key) (column_of namespace) serialized ttl_seconds c.rows;
        },
        true,
      )
      else (c, false)

  unfoldable pub invalidate : Bool → ℕ → String → String → Cache → Cache × Bool
  unfolding ensure_table column_of update_where matches
  invalidate up now key namespace c =
      let c = ensure_table up c in
      let rows =
        update_where (matches (hash key) (column_of namespace))
          (λ r. record r { expires_at = now - 1 }) c.rows in
      if up then (record c { rows = rows }, true) else (c, false)

  -- {"cache_key", "cache_ns", "data"} of a row
  pub record Entry : Type ℓ where
    pub entry_key : String
    pub entry_ns : String
    pub entry_data : Option Value

  -- The entry of a row; a row whose text is no JSON has none.
  unfoldable pub entry_of : Row → List Entry
  entry_of r = elim r.value_json [
    | none ↦ record { entry_key = r.cache_key; entry_ns = r.cache_ns; entry_data = none } ∷ []
    | some stored ↦
        if stored == ""
        then record { entry_key = r.cache_key; entry_ns = r.cache_ns; entry_data = none } ∷ []
        else elim (loads stored) [
          | none ↦ []
          | some v ↦
              record { entry_key = r.cache_key; entry_ns = r.cache_ns; entry_data = some v } ∷ []
        ]
  ]

  unfoldable pub entries : List Row → List Entry
  unfolding entry_of
  entries [] = []
  entries (r ∷ rs) = entry_of r ++ entries rs

  -- `newest_first` is the ORDER BY of the warehouse.
  unfoldable pub get_recent_entries :
      Bool → (List Row → List Row) → ℕ → ℕ → Cache → Cache × List Entry
  unfolding ensure_table entries keep_rows holds_value is_live
  get_recent_entries up newest_first now limit c =
      let c = ensure_table up c in
      let rows =
        take limit (newest_first (keep_rows (λ r. is_live now r && holds_value r) c.rows)) in
      if up then (c, entries rows) else (c, [])

unfoldable pub invalidate_namespace : Bool → ℕ → String → Cache → Cache × ℕ
unfolding ensure_table column_of count_where update_where is_live
invalidate_namespace up now namespace c =
    let c = ensure_table up c in
    let ns = column_of namespace in
    let count = count_where (λ r. r.cache_ns == ns && is_live now r) c.rows in
    let rows =
      update_where (λ r. r.cache_ns == ns) (λ r. record r { expires_at = now - 1 }) c.rows in
    if up then if ltb 0 count then (record c { rows = rows }, count) else (c, count) else (c, 0)

unfoldable pub vacuum : Bool → ℕ → Cache → Cache × ℕ
unfolding ensure_table count_where update_where is_expired holds_value
vacuum up now c =
    let c = ensure_table up c in
    let expired = count_where (λ r. is_expired now r && holds_value r) c.rows in
    let rows = update_where (is_expired now) (λ r. record r { value_json = none }) c.rows in
    if up
    then if ltb 0 expired then (record c { rows = rows }, expired) else (c, expired)
    else (c, 0)
