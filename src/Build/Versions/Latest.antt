-- ===== src/Build/Versions/Latest.antt =====
-- The check of all ids in one query against the check of one id.
use bricktrace.Prelude.{
  ℕ, ◌==◌, ◌&&◌, not, eqb, ltb, Bool, true, false, String, List, [], ◌∷◌, Option, none, some, elem,
  if◌then◌else◌, ◌≡◌, refl, ◌∙◌, ap, arith, eq_iff, distinct, Bool-cases, inl, inr,
}
use bricktrace.Prelude.Dict.{Dict, lookup, insert, keys, lookup-insert}
use bricktrace.Build.Versions.{
  VersionRow, Tie, rows_of, newer, newest, differs, is_new_content_version, group_latest,
  check_each, batch_check_versions,
}

lookup-group_latest :
    (tie : Tie) (id : String) (ids : List String) (rows : List VersionRow)
    (groups : Dict VersionRow)
    → lookup id (group_latest tie ids rows groups)
      ≡ (if elem id ids then newest tie (lookup id groups) (rows_of id rows) else lookup id groups)
unfolding group_latest newest rows_of
lookup-group_latest tie id ids [] groups = ground arith
lookup-group_latest tie id ids (r ∷ rows) groups = elim (Bool-cases (r.extraction_id == id)) [
  | inl e ↦
      let same : r.extraction_id ≡ id = (eq_iff r.extraction_id id).0 e in
      let g = insert r.extraction_id (newer tie r (lookup r.extraction_id groups)) groups in
      rw e (
        ground (
          arith,
          lookup-group_latest tie id ids rows g,
          lookup-group_latest tie id ids rows groups,
          lookup-insert r.extraction_id id (newer tie r (lookup r.extraction_id groups)) groups,
          eq_iff id r.extraction_id,
          ap (λ i. elem i ids) same,
          ap (λ i. lookup i groups) same,
        ))
  | inr e ↦
      let g = insert r.extraction_id (newer tie r (lookup r.extraction_id groups)) groups in
      rw e (
        ground (
          arith,
          lookup-group_latest tie id ids rows g,
          lookup-group_latest tie id ids rows groups,
          lookup-insert r.extraction_id id (newer tie r (lookup r.extraction_id groups)) groups,
          eq_iff id r.extraction_id,
          eq_iff r.extraction_id id,
        ))
]

-- The answer for an id that the map holds, `false` for any other.
unfoldable pub asked : Tie → Option (List VersionRow) → String → Option String → Bool
unfolding is_new_content_version
asked tie table id none = false
asked tie table id (some sha) = is_new_content_version tie table id sha

unfoldable pub differs_from : Option VersionRow → Option String → Bool
unfolding differs
differs_from last none = false
differs_from last (some sha) = differs last sha

elem-check_each-absent :
    (id : String) (known_shas : Dict VersionRow) (m : Dict String)
    → elem id (keys m) ≡ false
    → elem id (check_each known_shas m) ≡ false
unfolding check_each elem
elem-check_each-absent id known_shas [] h = refl
elem-check_each-absent id known_shas ((eid, sha) ∷ m) h =
    ground (arith, elem-check_each-absent id known_shas m)

elem-check_each :
    (id : String) (known_shas : Dict VersionRow) (m : Dict String)
    → distinct (keys m) ≡ true
    → elem id (check_each known_shas m) ≡ differs_from (lookup id known_shas) (lookup id m)
unfolding check_each elem lookup differs_from distinct
elem-check_each id known_shas [] d = refl
elem-check_each id known_shas ((eid, sha) ∷ m) d = elim (Bool-cases (id == eid)) [
  | inl e ↦
      let same = (eq_iff id eid).0 e in
      rw e (
        ground (
          arith,
          elem-check_each-absent id known_shas m,
          same,
          ap (λ i. elem i (keys m)) same,
          ap (λ i. lookup i known_shas) same,
        ))
  | inr e ↦ rw e (ground (arith, elem-check_each id known_shas m))
]

pub elem-keys-asked :
    (tie : Tie) (id : String) (m : Dict String) → elem id (keys m) ≡ asked tie none id (lookup id m)
unfolding elem lookup asked is_new_content_version
elem-keys-asked tie id [] = refl
elem-keys-asked tie id ((eid, sha) ∷ m) = ground (arith, elem-keys-asked tie id m)

differs_from-asked :
    (tie : Tie) (id : String) (rows : List VersionRow) (asked_sha : Option String) (known : Bool)
    → known ≡ asked tie none id asked_sha
    → differs_from (if known then newest tie none (rows_of id rows) else none) asked_sha
      ≡ asked tie (some rows) id asked_sha
unfolding asked differs_from is_new_content_version
differs_from-asked tie id rows none known h = refl
differs_from-asked tie id rows (some sha) known h = rw h refl

-- Where both queries choose by one rule, whatever the timestamps.
pub elem-batch_check_versions_one_tie :
    (tie : Tie) (table : Option (List VersionRow)) (m : Dict String) (id : String)
    → distinct (keys m) ≡ true
    → elem id (batch_check_versions tie table m) ≡ asked tie table id (lookup id m)
unfolding batch_check_versions lookup
elem-batch_check_versions_one_tie tie none m id d = elem-keys-asked tie id m
elem-batch_check_versions_one_tie tie (some rows) m id d =
    elem-check_each id (group_latest tie (keys m) rows []) m d
    ∙ ap (λ v. differs_from v (lookup id m)) (lookup-group_latest tie id (keys m) rows [])
    ∙ differs_from-asked tie id rows (lookup id m) (elem id (keys m)) (elem-keys-asked tie id m)

-- No row has this timestamp.
unfoldable pub apart_from : ℕ → List VersionRow → Bool
apart_from time [] = true
apart_from time (r ∷ rows) = not (eqb time r.recorded_at) && apart_from time rows

unfoldable pub times_differ : List VersionRow → Bool
unfolding apart_from
times_differ [] = true
times_differ (r ∷ rows) = apart_from r.recorded_at rows && times_differ rows

-- No two rows of the id have one timestamp.
unfoldable pub recorded_apart : String → Option (List VersionRow) → Bool
unfolding times_differ rows_of
recorded_apart id none = true
recorded_apart id (some rows) = times_differ (rows_of id rows)

newest_any_tie :
    (tie other : Tie) (found : VersionRow) (rows : List VersionRow)
    → apart_from found.recorded_at rows ≡ true
    → times_differ rows ≡ true
    → newest tie (some found) rows ≡ newest other (some found) rows
unfolding newest newer apart_from times_differ
newest_any_tie tie other found [] a d = refl
newest_any_tie tie other found (r ∷ rows) a d =
    elim (Bool-cases (ltb found.recorded_at r.recorded_at)) [
      | inl e ↦ rw e (newest_any_tie tie other r rows (ground arith) (ground arith))
      | inr e ↦
          let older : ltb r.recorded_at found.recorded_at ≡ true = ground arith in
          rw (e, older) (newest_any_tie tie other found rows (ground arith) (ground arith))
    ]

asked_any_tie :
    (tie other : Tie) (table : Option (List VersionRow)) (id : String) (sha : Option String)
    → recorded_apart id table ≡ true
    → asked tie table id sha ≡ asked other table id sha
unfolding asked is_new_content_version recorded_apart newest newer times_differ
asked_any_tie tie other table id none h = refl
asked_any_tie tie other none id (some sha) h = refl
asked_any_tie tie other (some rows) id (some sha) h =
    ap (λ v. differs v sha) (same (rows_of id rows) h)
  where
    same :
        (rows : List VersionRow)
        → times_differ rows ≡ true
        → newest tie none rows ≡ newest other none rows
    same [] d = refl
    same (r ∷ rows) d = newest_any_tie tie other r rows (ground arith) (ground arith)

-- For a map without repeated ids, the check of all ids in one query, on any table or none, answers
-- for an id of which no two rows have one timestamp as the check of one id: it returns the id
-- exactly when the map holds it and that check finds it new. Each query chooses among rows with one
-- timestamp by a rule of its own.
pub elem-batch_check_versions :
    (tie other : Tie) (table : Option (List VersionRow)) (m : Dict String) (id : String)
    → distinct (keys m) ≡ true
    → recorded_apart id table ≡ true
    → elem id (batch_check_versions tie table m) ≡ asked other table id (lookup id m)
elem-batch_check_versions tie other table m id d h =
    elem-batch_check_versions_one_tie tie table m id d
    ∙ asked_any_tie tie other table id (lookup id m) h
