-- ===== src/Cache/Delta/Recent.antt =====
-- The entries that backend/cache_service.py hands out to warm a new process.
use bricktrace.Prelude.{
  ℕ, ◌<◌, String, true, false, ◌==◌, eq_iff, ltb, List, [], ◌∷◌, ◌++◌, Option, none, some, ◌≡◌, ap,
  ◌∙◌, arith, Bool-cases, inl, inr,
}
use bricktrace.Prelude.Text.{◌⊕◌, starts}
use bricktrace.Cache.Delta.{Row, gzip_marker, encode, entries, entry_of}

marked_not_empty : (s : String) → (gzip_marker ⊕ s == "") ≡ false
unfolding ◌⊕◌
marked_not_empty s = elim (Bool-cases (gzip_marker ⊕ s == "")) [
  | inl e ↦ cc (ap (starts b'g') ((eq_iff (gzip_marker ⊕ s) "").0 e))
  | inr e ↦ e
]

module _ {ℓ} {Value : Type ℓ} (hash : String → String) (dumps : Value → String)
    (loads : String → Option Value) (pack : String → String) (unpack : String → Option String)
    (bytes : String → ℕ) where
  packed_form :
      (serialized : String)
      → bytes (gzip_marker ⊕ pack serialized) < bytes serialized
      → encode hash dumps loads pack unpack bytes serialized ≡ gzip_marker ⊕ pack serialized
  unfolding encode
  packed_form serialized h = rw (is_shorter _ _ h)
    where
      is_shorter : (a b : ℕ) → a < b → ltb a b ≡ true
      is_shorter a b h = ground arith

  passed_over :
      (r : Row) (stored : String) (rows : List Row)
      → r.value_json ≡ some (gzip_marker ⊕ stored)
      → loads (gzip_marker ⊕ stored) ≡ none
      → entries hash dumps loads pack unpack bytes (r ∷ rows)
        ≡ entries hash dumps loads pack unpack bytes rows
  unfolding entries entry_of ◌⊕◌
  passed_over r stored rows e h = rw (e, marked_not_empty stored, h)

  -- A value that `set` stored in its packed form is missing from the recent entries, wherever its
  -- row stands, if no text that begins with the marker is JSON.
  pub entries-packed :
      (value : Value) (r : Row) (before behind : List Row)
      → ((s : String) → loads (gzip_marker ⊕ s) ≡ none)
      → bytes (gzip_marker ⊕ pack (dumps value)) < bytes (dumps value)
      → r.value_json ≡ some (encode hash dumps loads pack unpack bytes (dumps value))
      → entries hash dumps loads pack unpack bytes (before ++ r ∷ behind)
        ≡ entries hash dumps loads pack unpack bytes (before ++ behind)
  unfolding entries
  entries-packed value r [] behind no_json shorter e =
      passed_over r (pack (dumps value)) behind (e ∙ ap some (packed_form (dumps value) shorter))
        (no_json (pack (dumps value)))
  entries-packed value r (b ∷ before) behind no_json shorter e =
      ap (λ rest. entry_of hash dumps loads pack unpack bytes b ++ rest)
        (entries-packed value r before behind no_json shorter e)
