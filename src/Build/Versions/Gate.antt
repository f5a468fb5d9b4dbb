-- ===== src/Build/Versions/Gate.antt =====
-- What the versions that one run records mean for the runs behind it.
use bricktrace.Prelude.{
  ℕ, ◌==◌, ◌&&◌, Bool, true, false, not, String, List, [], ◌∷◌, ◌++◌, Option, none, some, elem, ltb,
  ◌≡◌, refl, ap, ◌∙◌, arith, eq_iff, distinct, Bool-cases, Option-cases, inl, inr,
}
use bricktrace.Prelude.Dict.{Dict, lookup, insert, keys, elem-keys-insert}
use bricktrace.Build.Versions.{
  VersionRow, Tie, Artifact, skipped, rows_of, newer, newest, differs, is_new_content_version,
  batch_check_versions, version_rows, append_versions, batch_record_versions, in_ids, sha_map_of,
  parse_new, gated_run,
}
use bricktrace.Build.Versions.Latest.{asked, elem-batch_check_versions_one_tie}

-- Every row was recorded before.
unfoldable pub rows_before : ℕ → List VersionRow → Bool
rows_before now [] = true
rows_before now (r ∷ rows) = ltb r.recorded_at now && rows_before now rows

unfoldable pub before : ℕ → Option (List VersionRow) → Bool
unfolding rows_before
before now none = true
before now (some rows) = rows_before now rows

unfoldable found_before : ℕ → Option VersionRow → Bool
found_before now none = true
found_before now (some r) = ltb r.recorded_at now

newest_before :
    (tie : Tie) (now : ℕ) (id : String) (found : Option VersionRow) (rows : List VersionRow)
    → found_before now found ≡ true
    → rows_before now rows ≡ true
    → found_before now (newest tie found (rows_of id rows)) ≡ true
unfolding newest rows_of rows_before found_before newer
newest_before tie now id found [] f h = f
newest_before tie now id none (r ∷ rows) f h =
    ground (arith, newest_before tie now id none rows, newest_before tie now id (some r) rows)
newest_before tie now id (some s) (r ∷ rows) f h =
    ground (arith, newest_before tie now id (some s) rows, newest_before tie now id (some r) rows)

newest-append :
    (tie : Tie) (found : Option VersionRow) (xs ys : List VersionRow)
    → newest tie found (xs ++ ys) ≡ newest tie (newest tie found xs) ys
unfolding newest
newest-append tie found [] ys = refl
newest-append tie found (r ∷ xs) ys = newest-append tie (some (newer tie r found)) xs ys

rows_of-append :
    (id : String) (xs ys : List VersionRow) → rows_of id (xs ++ ys) ≡ rows_of id xs ++ rows_of id ys
unfolding rows_of
rows_of-append id [] ys = refl
rows_of-append id (r ∷ xs) ys = ground (arith, rows_of-append id xs ys)

-- The answer behind a record: by what was recorded for the id, else as before.
unfoldable pub recorded : Bool → Option String → String → Bool
recorded old none sha = old
recorded old (some last) sha = not (last == sha)

newer_of_before :
    (tie : Tie) (r : VersionRow) (found : Option VersionRow)
    → found_before r.recorded_at found ≡ true
    → newer tie r found ≡ r
unfolding found_before newer
newer_of_before tie r none h = refl
newer_of_before tie r (some s) h = ground (arith, h)

module _ (tie : Tie) (run : String) (ids : List String) (now : ℕ) where
  no_rows :
      (id : String) (m : Dict String)
      → elem id (keys m) ≡ false
      → rows_of id (version_rows run ids now m) ≡ []
  unfolding rows_of version_rows elem
  no_rows id [] h = refl
  no_rows id ((eid, sha) ∷ m) h = ground (arith, no_rows id m, eq_iff id eid, eq_iff eid id)

  differs-recorded :
      (found : Option VersionRow) (id sha : String) (m : Dict String)
      → found_before now found ≡ true
      → distinct (keys m) ≡ true
      → differs (newest tie found (rows_of id (version_rows run ids now m))) sha
        ≡ recorded (differs found sha) (lookup id m) sha
  unfolding newest rows_of version_rows recorded lookup distinct differs
  differs-recorded found id sha [] f d = refl
  differs-recorded found id sha ((eid, last) ∷ m) f d = elim (Bool-cases (id == eid)) [
    | inl e ↦
        let same : id ≡ eid = (eq_iff id eid).0 e in
        let other : (eid == id) ≡ true = ground (arith, eq_iff eid id, same) in
        let absent : elem id (keys m) ≡ false = ground (arith, ap (λ i. elem i (keys m)) same) in
        let row : VersionRow = record {
          pipeline_run_id = run;
          extraction_id = eid;
          content_sha256 = last;
          is_new_version = elem eid ids;
          recorded_at = now;
        } in
        rw (e, other, no_rows id m absent, newer_of_before tie row found f) refl
    | inr e ↦
        let other : (eid == id) ≡ false = ground (arith, eq_iff eid id, eq_iff id eid) in
        rw (e, other) (differs-recorded found id sha m f (ground arith))
  ]

-- For a map without repeated ids, recorded later than every row of the table, the check of an id
-- afterwards compares with the text that the map holds for it, and for other ids is what it was,
-- where both checks choose by one rule among rows with one timestamp.
pub is_new-batch_record_versions :
    (tie : Tie) (table : Option (List VersionRow)) (run : String) (m : Dict String)
    (ids : List String) (now : ℕ) (id sha : String)
    → distinct (keys m) ≡ true
    → before now table ≡ true
    → is_new_content_version tie (batch_record_versions table run m ids now) id sha
      ≡ recorded (is_new_content_version tie table id sha) (lookup id m) sha
unfolding is_new_content_version batch_record_versions append_versions before recorded lookup
    found_before differs newest rows_of
is_new-batch_record_versions tie none run [] ids now id sha d b = refl
is_new-batch_record_versions tie (some rows) run [] ids now id sha d b = refl
is_new-batch_record_versions tie none run (e ∷ m) ids now id sha d b =
    differs-recorded tie run ids now none id sha (e ∷ m) refl d
is_new-batch_record_versions tie (some rows) run (e ∷ m) ids now id sha d b =
    rw
      (
        rows_of-append id rows (version_rows run ids now (e ∷ m)),
        newest-append tie none (rows_of id rows) (rows_of id (version_rows run ids now (e ∷ m))),
      )
      (differs-recorded tie run ids now (newest tie none (rows_of id rows)) id sha (e ∷ m)
        (newest_before tie now id none rows refl b) d)

distinct-insert :
    (k v : String) (m : Dict String)
    → distinct (keys m) ≡ true
    → distinct (keys (insert k v m)) ≡ true
unfolding insert distinct elem
distinct-insert k v [] d = refl
distinct-insert k v ((j, w) ∷ m) d =
    ground (arith, distinct-insert k v m, elem-keys-insert k j v m, eq_iff k j, eq_iff j k)

pub distinct-sha_map_of :
    (sha256 : String → String) (artifacts : List Artifact) (m : Dict String)
    → distinct (keys m) ≡ true
    → distinct (keys (sha_map_of sha256 artifacts m)) ≡ true
unfolding sha_map_of
distinct-sha_map_of sha256 [] m d = d
distinct-sha_map_of sha256 (a ∷ artifacts) m d =
    distinct-sha_map_of sha256 artifacts _ (distinct-insert a.extraction_id _ m d)

in_ids-none :
    (ids : List String) (artifacts : List Artifact)
    → ((id : String) → elem id ids ≡ false)
    → in_ids ids artifacts ≡ []
unfolding in_ids
in_ids-none ids [] h = refl
in_ids-none ids (a ∷ artifacts) h = ground (arith, h a.extraction_id, in_ids-none ids artifacts h)

not_asked_again :
    (tie : Tie) (table : Option (List VersionRow)) (run : String) (m : Dict String)
    (ids : List String) (now : ℕ) (id : String)
    → distinct (keys m) ≡ true
    → before now table ≡ true
    → asked tie (batch_record_versions table run m ids now) id (lookup id m) ≡ false
unfolding asked recorded
not_asked_again tie table run m ids now id d b = elim (Option-cases (lookup id m)) [
  | inl e ↦ rw e refl
  | inr (sha, e) ↦
      rw (e, is_new-batch_record_versions tie table run m ids now id sha d b)
        (ground (arith, eq_iff sha sha))
]

-- Once a run later than every row of the table has passed its version check, whatever came of it
-- behind that (also where a later phase raised) and whatever choice the queries make among rows with
-- one timestamp, the next run of the same artifacts that is not forced skips them: it parses
-- nothing.
pub gated_run-gated_run :
    (tie later_tie : Tie) (sha256 : String → String) (raises raises_later : List Artifact → Bool)
    (force : Bool) (run later_run : String) (now later : ℕ) (artifacts : List Artifact)
    (table : Option (List VersionRow))
    → before now table ≡ true
    → (gated_run sha256 raises_later later_tie false later_run later artifacts
        (gated_run sha256 raises tie force run now artifacts table).0).1
      ≡ skipped
unfolding gated_run parse_new distinct
gated_run-gated_run tie later_tie sha256 raises raises_later force run later_run now later artifacts
      table b =
    let m = sha_map_of sha256 artifacts [] in
    let d = distinct-sha_map_of sha256 artifacts [] refl in
    let ids = batch_check_versions tie table m in
    let again = batch_record_versions table run m ids now in
    let nothing = in_ids-none (batch_check_versions later_tie again m) artifacts (λ id.
      elem-batch_check_versions_one_tie later_tie again m id d
      ∙ not_asked_again later_tie table run m ids now id d b) in
    rw nothing refl
