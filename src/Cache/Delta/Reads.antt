-- ===== src/Cache/Delta/Reads.antt =====
-- What backend/cache_service.py reads back from its table.
use bricktrace.Prelude.{
  ℕ, ◌+◌, ◌-◌, ◌≤◌, ◌<◌, String, Bool, true, false, ◌&&◌, ◌==◌, eq_iff, eqb, ltb, if◌then◌else◌,
  List, [], ◌∷◌, ◌++◌, Option, none, some, ◌≡◌, refl, sym, ap, ◌∙◌, arith, inl, inr, Bool-cases,
}
use bricktrace.Prelude.Text.{◌⊕◌, after_prefix}
use bricktrace.Validators.Escape.{sql_str, truncate, text_of}
use bricktrace.Validators.Escape.Read.{read-sql_str}
use bricktrace.Cache.Delta.{
  Row, Cache, gzip_marker, max_value_bytes, ns_max_len, literal, column_of, matches, is_live,
  first_where, count_where, update_where, merge, store, ensure_table, encode, decode, value_of, get,
  set, invalidate, vacuum, is_expired, holds_value,
}

literal-sql_str : (s : String) → literal (sql_str (some s) none) ≡ s
unfolding truncate text_of literal
literal-sql_str s = rw (literal, read-sql_str (some s) none "" refl)

-- Two namespaces that agree in their first hundred characters share a column value.
pub column_of_lem :
    (namespace : String) → column_of namespace ≡ truncate (some ns_max_len) namespace
unfolding column_of text_of literal
column_of_lem namespace = rw (literal, read-sql_str (some namespace) (some ns_max_len) "" refl)

module _ (p q : Row → Bool) (f : Row → Row) (stored : Option String) where
  -- The rows of `p`, changed by `f`, are the rows of `q`.
  first-update :
      ((r : Row) → p r ≡ true → (q (f r) ≡ true) × ((f r).value_json ≡ stored))
      → ((r : Row) → p r ≡ false → q r ≡ false)
      → (rows : List Row) → eqb (count_where p rows) 0 ≡ false
      → (r : Row) × (first_where q (update_where p f rows) ≡ some r) × (r.value_json ≡ stored)
  unfolding first_where count_where update_where
  first-update hit miss [] e = ground arith
  first-update hit miss (r ∷ rs) e = elim (Bool-cases (p r)) [
    | inl t ↦ let (found, same) = hit r t in (f r, rw (t, found), same)
    | inr t ↦
        let (s, found, same) = first-update hit miss rs (rw t at e) in
        (s, rw (t, miss r t) found, same)
  ]

  first-append :
      (r : Row)
      → q r ≡ true
      → ((s : Row) → p s ≡ false → q s ≡ false)
      → (rows : List Row) → eqb (count_where p rows) 0 ≡ true
      → first_where q (rows ++ r ∷ []) ≡ some r
  unfolding first_where count_where
  first-append r here miss [] e = rw here
  first-append r here miss (s ∷ rs) e = elim (Bool-cases (p s)) [
    | inl t ↦ ground (arith, t)
    | inr t ↦ rw (miss s t) (first-append r here miss rs (rw t at e))
  ]

  first-merge :
      (r : Row)
      → q r ≡ true
      → r.value_json ≡ stored
      → ((s : Row) → p s ≡ true → (q (f s) ≡ true) × ((f s).value_json ≡ stored))
      → ((s : Row) → p s ≡ false → q s ≡ false)
      → (rows : List Row)
      → (s : Row) × (first_where q (merge p f r rows) ≡ some s) × (s.value_json ≡ stored)
  unfolding merge
  first-merge r here same hit miss rows = elim (Bool-cases (eqb (count_where p rows) 0)) [
    | inl e ↦ (r, rw e (first-append r here miss rows e), same)
    | inr e ↦ rw e (first-update hit miss rows e)
  ]

-- A change to rows that a query passes over, before and after the change.
module _ (p q : Row → Bool) (f : Row → Row) where
  first-update_same :
      ((r : Row) → p r ≡ true → (q r ≡ false) × (q (f r) ≡ false))
      → (rows : List Row) → first_where q (update_where p f rows) ≡ first_where q rows
  unfolding first_where update_where
  first-update_same apart [] = refl
  first-update_same apart (r ∷ rs) = elim (Bool-cases (p r)) [
    | inl t ↦
        let (before, behind) = apart r t in rw (t, before, behind) (first-update_same apart rs)
    | inr t ↦ rw (t, first-update_same apart rs)
  ]

  first-append_same :
      (r : Row)
      → q r ≡ false
      → (rows : List Row) → first_where q (rows ++ r ∷ []) ≡ first_where q rows
  unfolding first_where
  first-append_same r e [] = rw e
  first-append_same r e (s ∷ rs) = rw (first-append_same r e rs)

  first-merge_same :
      (r : Row)
      → q r ≡ false
      → ((s : Row) → p s ≡ true → (q s ≡ false) × (q (f s) ≡ false))
      → (rows : List Row) → first_where q (merge p f r rows) ≡ first_where q rows
  unfolding merge
  first-merge_same r e apart rows = elim (Bool-cases (eqb (count_where p rows) 0)) [
    | inl t ↦ rw t (first-append_same r e rows)
    | inr t ↦ rw t (first-update_same apart rows)
  ]

  first-update_none :
      ((r : Row) → (if p r then q (f r) else q r) ≡ false)
      → (rows : List Row) → first_where q (update_where p f rows) ≡ none
  unfolding first_where update_where
  first-update_none off [] = refl
  first-update_none off (r ∷ rs) = ground (arith, off r, first-update_none off rs)

same_key :
    (hk ns : String) (r : Row) → matches hk ns r ≡ true → (r.cache_key ≡ hk) × (r.cache_ns ≡ ns)
unfolding matches
same_key hk ns r h =
    ((eq_iff r.cache_key hk).0 (ground arith), (eq_iff r.cache_ns ns).0 (ground arith))

-- The row that is stored is the one that is read while it is live.
first-store :
    (now later : ℕ) (hk ns serialized : String) (ttl : ℕ) (rows : List Row)
    → later < now + ttl
    → (r : Row) × (first_where
          (λ s. matches hk ns s && is_live later s)
          (store now hk ns serialized ttl rows)
        ≡ some r)
      × (r.value_json ≡ some serialized)
unfolding store matches is_live
first-store now later hk ns serialized ttl rows live =
    first-merge (matches hk ns) (λ s. matches hk ns s && is_live later s) _ (some serialized) _
      (ground (arith, eq_iff hk hk, eq_iff ns ns)) (ap some (literal-sql_str serialized))
      (λ s t. (ground arith, ap some (literal-sql_str serialized))) (λ s t. ground arith) rows

-- A row under another key or namespace is read as before.
first-store_other :
    (now later : ℕ) (hk ns hk' ns' serialized : String) (ttl : ℕ) (rows : List Row)
    → (hk' == hk && ns' == ns) ≡ false
    → first_where (λ s. matches hk' ns' s && is_live later s) (store now hk ns serialized ttl rows)
      ≡ first_where (λ s. matches hk' ns' s && is_live later s) rows
unfolding store matches is_live
first-store_other now later hk ns hk' ns' serialized ttl rows apart =
    first-merge_same (matches hk ns) (λ s. matches hk' ns' s && is_live later s) _ _
      (ground (arith, eq_iff hk hk', eq_iff ns ns', eq_iff hk' hk, eq_iff ns' ns))
      (λ s t.
        let (at_key, at_ns) = same_key hk ns s t in
        (
          ground
              (arith, eq_iff s.cache_key hk', eq_iff s.cache_ns ns', eq_iff hk' hk, eq_iff ns' ns),
          ground
              (arith, eq_iff s.cache_key hk', eq_iff s.cache_ns ns', eq_iff hk' hk, eq_iff ns' ns),
        ))
      rows

not_over : (limit n : ℕ) → n ≤ limit → ltb limit n ≡ false
not_over limit n h = ground arith

module _ {ℓ} {Value : Type ℓ} (hash : String → String) (dumps : Value → String)
    (loads : String → Option Value) (pack : String → String) (unpack : String → Option String)
    (bytes : String → ℕ) where
  -- The JSON text of a value is read back, packing loses nothing, and no JSON text begins with the
  -- marker.
  pub record IsFaithful (value : Value) : Type ℓ where
    pub reads_back : loads (dumps value) ≡ some value
    pub unpacks : unpack (pack (dumps value)) ≡ some (dumps value)
    pub unmarked : after_prefix gzip_marker (dumps value) ≡ none

  decode-plain :
      (s : String)
      → after_prefix gzip_marker s ≡ none
      → decode hash dumps loads pack unpack bytes s ≡ loads s
  unfolding decode
  decode-plain s h = rw h

  -- Decoding gives back what was encoded, whichever of the two forms was the shorter.
  decode-encode :
      (value : Value)
      → IsFaithful value
      → decode hash dumps loads pack unpack bytes
          (encode hash dumps loads pack unpack bytes (dumps value))
        ≡ some value
  unfolding decode encode
  decode-encode value h =
      elim (Bool-cases (ltb (bytes (gzip_marker ⊕ pack (dumps value))) (bytes (dumps value)))) [
        | inl e ↦ rw (e, decode, h.unpacks, h.reads_back)
        | inr e ↦ rw e (decode-plain (dumps value) h.unmarked ∙ h.reads_back)
      ]

  -- The row that a read finds.
  row_for : ℕ → String → String → Cache → Option Row
  row_for now key namespace c =
      first_where (λ r. matches (hash key) (column_of namespace) r && is_live now r) c.rows

  get_of_row :
      (now clock : ℕ) (key namespace : String) (c : Cache) (v : Option Value)
      → value_of hash dumps loads pack unpack bytes (row_for now key namespace c) ≡ v
      → (get hash dumps loads pack unpack bytes true now clock key namespace c).1 ≡ v
  unfolding get ensure_table row_for
  get_of_row now clock key namespace c none e = rw e
  get_of_row now clock key namespace c (some v) e = rw e

  get_same :
      (now clock : ℕ) (key namespace : String) (c d : Cache)
      → row_for now key namespace c ≡ row_for now key namespace d
      → (get hash dumps loads pack unpack bytes true now clock key namespace c).1
        ≡ (get hash dumps loads pack unpack bytes true now clock key namespace d).1
  get_same now clock key namespace c d e =
      get_of_row now clock key namespace c _ (ap (value_of hash dumps loads pack unpack bytes) e)
      ∙ sym (get_of_row now clock key namespace d _ refl)

  get_nothing :
      (up : Bool) (now clock : ℕ) (key namespace : String) (c : Cache)
      → row_for now key namespace c ≡ none
      → (get hash dumps loads pack unpack bytes up now clock key namespace c).1 ≡ none
  unfolding get ensure_table value_of row_for
  get_nothing true now clock key namespace c e = rw e
  get_nothing false now clock key namespace c e = refl

  value_of_row :
      (r : Row) (stored : String)
      → r.value_json ≡ some stored
      → value_of hash dumps loads pack unpack bytes (some r)
        ≡ decode hash dumps loads pack unpack bytes stored
  unfolding value_of
  value_of_row r stored e = rw e

  -- With the warehouse up, a value whose encoded text is not over the size limit is stored, and
  -- until its time to live is over the cache gives that value back under its key and namespace,
  -- whatever the table held before.
  pub get-set :
      (now later clock : ℕ) (key namespace : String) (value : Value) (ttl : ℕ) (c : Cache)
      → IsFaithful value
      → bytes (encode hash dumps loads pack unpack bytes (dumps value)) ≤ max_value_bytes
      → later < now + ttl
      → ((set hash dumps loads pack unpack bytes true now key value ttl namespace c).1 ≡ true)
        × ((get hash dumps loads pack unpack bytes true later clock key namespace
              (set hash dumps loads pack unpack bytes true now key value ttl namespace c).0).1
            ≡ some value)
  unfolding set ensure_table row_for
  get-set now later clock key namespace value ttl c faithful fits live =
      let serialized = encode hash dumps loads pack unpack bytes (dumps value) in
      let (r, found, same) =
        first-store now later (hash key) (column_of namespace) serialized ttl c.rows live in
      rw (not_over _ _ fits) (
        refl,
        get_of_row later clock key namespace _ (some value) (
            ap (value_of hash dumps loads pack unpack bytes) found
            ∙ value_of_row r serialized same
            ∙ decode-encode value faithful),
      )

  -- Storing a value changes nothing that is read under another key or namespace, whose hash or
  -- whose first hundred characters differ.
  pub get-set_other :
      (up : Bool) (now later clock : ℕ) (key key' namespace namespace' : String) (value : Value)
      (ttl : ℕ) (c : Cache)
      → (hash key' == hash key && column_of namespace' == column_of namespace) ≡ false
      → (get hash dumps loads pack unpack bytes true later clock key' namespace'
          (set hash dumps loads pack unpack bytes up now key value ttl namespace c).0).1
        ≡ (get hash dumps loads pack unpack bytes true later clock key' namespace' c).1
  unfolding set ensure_table row_for
  get-set_other up now later clock key key' namespace namespace' value ttl c apart =
      let serialized = encode hash dumps loads pack unpack bytes (dumps value) in
      let same =
        first-store_other now later (hash key) (column_of namespace) (hash key')
          (column_of namespace') serialized ttl c.rows apart in
      elim (Bool-cases (ltb max_value_bytes (bytes serialized))) [
        | inl e ↦ rw e (get_same later clock key' namespace' _ c refl)
        | inr e ↦ elim (Bool-cases up) [
          | inl u ↦ rw (e, u) (get_same later clock key' namespace' _ c same)
          | inr u ↦ rw (e, u) (get_same later clock key' namespace' _ c refl)
        ]
      ]

  -- An entry that was invalidated is not read again before it is stored again.
  pub get-invalidate :
      (up : Bool) (now later clock : ℕ) (key namespace : String) (c : Cache)
      → now ≤ later
      → (get hash dumps loads pack unpack bytes up later clock key namespace
          (invalidate hash dumps loads pack unpack bytes true now key namespace c).0).1
        ≡ none
  unfolding invalidate ensure_table row_for matches is_live
  get-invalidate up now later clock key namespace c le =
      get_nothing up later clock key namespace _ (
        first-update_none (matches (hash key) (column_of namespace))
          (λ r. matches (hash key) (column_of namespace) r && is_live later r)
          (λ r. record r { expires_at = now - 1 }) (λ r. ground arith) c.rows)

  -- Vacuuming the table never loses a value that could still be read.
  pub get-vacuum :
      (up : Bool) (now later clock : ℕ) (key namespace : String) (c : Cache)
      → now ≤ later
      → (get hash dumps loads pack unpack bytes true later clock key namespace
          (vacuum up now c).0).1
        ≡ (get hash dumps loads pack unpack bytes true later clock key namespace c).1
  unfolding vacuum ensure_table row_for is_expired is_live
  get-vacuum up now later clock key namespace c le =
      let same =
        first-update_same (is_expired now)
          (λ r. matches (hash key) (column_of namespace) r && is_live later r)
          (λ r. record r { value_json = none }) (λ r t. (ground arith, ground arith)) c.rows in
      elim (Bool-cases up) [
        | inl u ↦
            elim (Bool-cases
              (ltb 0 (count_where (λ r. is_expired now r && holds_value r) c.rows))) [
                | inl e ↦ rw (u, e) (get_same later clock key namespace _ c same)
                | inr e ↦ rw (u, e) (get_same later clock key namespace _ c refl)
              ]
        | inr u ↦ rw u (get_same later clock key namespace _ c refl)
      ]
