-- ===== src/Build/Versions.antt =====
-- transformation_lineage/versioning/change_detection.py, and the phases of
-- transformation_lineage/pipeline.py that decide what is parsed. A versions table that does not exist
-- yet is `none`. Among rows with one timestamp `ORDER BY ... LIMIT 1` and `max_by` leave the choice of
-- the newest open, each for itself: the choice that a query makes is its argument `tie`, of which
-- nothing is known.
pub mod Latest
pub mod Gate
use bricktrace.Prelude.{
  ℕ, ◌==◌, Bool, true, false, not, String, List, [], ◌∷◌, ◌++◌, Option, none, some, elem,
  if◌then◌else◌, ltb,
}
use bricktrace.Prelude.Text.{◌⊕◌}
use bricktrace.Prelude.Dict.{Dict, lookup, insert, keys}

pub record VersionRow : Type 0 where
  pub pipeline_run_id : String
  pub extraction_id : String
  pub content_sha256 : String
  pub is_new_version : Bool
  pub recorded_at : ℕ

-- WHERE extraction_id = id
unfoldable pub rows_of : String → List VersionRow → List VersionRow
rows_of id [] = []
rows_of id (r ∷ rows) =
    let rest = rows_of id rows in if r.extraction_id == id then r ∷ rest else rest

-- Whether a query takes the first of two rows with one timestamp.
abbrev pub Tie : Type 0
Tie = VersionRow → VersionRow → Bool

-- The newer of a row and what was found before.
unfoldable pub newer : Tie → VersionRow → Option VersionRow → VersionRow
newer tie r none = r
newer tie r (some s) =
    if ltb s.recorded_at r.recorded_at
    then r
    else if ltb r.recorded_at s.recorded_at
    then s
    else if tie r s
    then r
    else s

-- ORDER BY recorded_at DESC LIMIT 1
unfoldable pub newest : Tie → Option VersionRow → List VersionRow → Option VersionRow
unfolding newer
newest tie found [] = found
newest tie found (r ∷ rows) = newest tie (some (newer tie r found)) rows

unfoldable pub differs : Option VersionRow → String → Bool
differs none sha256 = true
differs (some last) sha256 = not (last.content_sha256 == sha256)

unfoldable pub is_new_content_version : Tie → Option (List VersionRow) → String → String → Bool
unfolding differs newest rows_of
is_new_content_version tie none id sha256 = true
is_new_content_version tie (some rows) id sha256 =
    differs (newest tie none (rows_of id rows)) sha256

-- WHERE extraction_id IN ids GROUP BY extraction_id, with the newest row of each group
unfoldable pub group_latest :
    Tie → List String → List VersionRow → Dict VersionRow → Dict VersionRow
unfolding newer insert lookup elem
group_latest tie ids [] groups = groups
group_latest tie ids (r ∷ rows) groups = group_latest tie ids rows (
    if elem r.extraction_id ids
    then insert r.extraction_id (newer tie r (lookup r.extraction_id groups)) groups
    else groups)

unfoldable pub check_each : Dict VersionRow → Dict String → List String
unfolding differs lookup
check_each known_shas [] = []
check_each known_shas ((eid, sha) ∷ sha_map) =
    let rest = check_each known_shas sha_map in
    if differs (lookup eid known_shas) sha then eid ∷ rest else rest

unfoldable pub batch_check_versions : Tie → Option (List VersionRow) → Dict String → List String
unfolding check_each group_latest
batch_check_versions tie none sha_map = keys sha_map
batch_check_versions tie (some rows) sha_map =
    check_each (group_latest tie (keys sha_map) rows []) sha_map

unfoldable pub version_rows : String → List String → ℕ → Dict String → List VersionRow
unfolding elem
version_rows run new_version_ids now [] = []
version_rows run new_version_ids now ((eid, sha) ∷ sha_map) =
    record {
      pipeline_run_id = run;
      extraction_id = eid;
      content_sha256 = sha;
      is_new_version = elem eid new_version_ids;
      recorded_at = now;
    }
    ∷ version_rows run new_version_ids now sha_map

-- The append of a frame; it creates the table.
unfoldable pub append_versions :
    Option (List VersionRow) → List VersionRow → Option (List VersionRow)
append_versions none rows = some rows
append_versions (some old) rows = some (old ++ rows)

unfoldable pub batch_record_versions :
    Option (List VersionRow) → String → Dict String → List String → ℕ → Option (List VersionRow)
unfolding append_versions version_rows
batch_record_versions table run [] new_version_ids now = table
batch_record_versions table run (e ∷ sha_map) new_version_ids now =
    append_versions table (version_rows run new_version_ids now (e ∷ sha_map))

unfoldable pub record_version_row :
    Option (List VersionRow) → String → String → String → Bool → ℕ → Option (List VersionRow)
unfolding append_versions
record_version_row table run extraction_id sha256 is_new now = append_versions table (
    record {
      pipeline_run_id = run;
      extraction_id = extraction_id;
      content_sha256 = sha256;
      is_new_version = is_new;
      recorded_at = now;
    }
    ∷ [])

pub record Artifact : Type 0 where
  pub extraction_id : String
  pub raw_source : String

-- What a run comes to behind the version check; `raised` where a later phase raises.
pub data Outcome : Type 0 where
  skipped raised : Outcome
  parsed : List Artifact → Outcome

unfoldable pub in_ids : List String → List Artifact → List Artifact
unfolding elem
in_ids ids [] = []
in_ids ids (a ∷ artifacts) =
    let rest = in_ids ids artifacts in if elem a.extraction_id ids then a ∷ rest else rest

unfoldable pub ids_of_artifacts : List Artifact → List String
ids_of_artifacts [] = []
ids_of_artifacts (a ∷ artifacts) = a.extraction_id ∷ ids_of_artifacts artifacts

module _ (sha256 : String → String) where
  abbrev pub parser_version : String
  parser_version = "6"

  unfoldable pub version_token : String → String
  unfolding ◌⊕◌
  version_token raw_source = sha256 ("parser_v" ⊕ parser_version ⊕ "\0" ⊕ raw_source)

  -- {a.extraction_id: version_token(a.raw_source) for a in artifacts}
  unfoldable pub sha_map_of : List Artifact → Dict String → Dict String
  unfolding insert version_token
  sha_map_of [] m = m
  sha_map_of (a ∷ artifacts) m =
      sha_map_of artifacts (insert a.extraction_id (version_token a.raw_source) m)

  module _ (raises : List Artifact → Bool) where
    unfoldable pub parse_new : List Artifact → Outcome
    parse_new [] = skipped
    parse_new (a ∷ new_artifacts) =
        if raises (a ∷ new_artifacts) then raised else parsed (a ∷ new_artifacts)

    -- run_daily_pipeline from phase 2 on: the versions table, which is written before anything is
    -- parsed, and the outcome.
    unfoldable pub gated_run :
        Tie
        → Bool
        → String
        → ℕ
        → List Artifact
        → Option (List VersionRow)
        → Option (List VersionRow) × Outcome
    unfolding sha_map_of batch_check_versions batch_record_versions in_ids ids_of_artifacts
        parse_new
    gated_run tie force_reparse run now artifacts table =
        let sha_map = sha_map_of artifacts [] in
        let new_version_ids = batch_check_versions tie table sha_map in
        let chosen = if force_reparse then ids_of_artifacts artifacts else new_version_ids in
        (
          batch_record_versions table run sha_map new_version_ids now,
          parse_new (in_ids chosen artifacts),
        )
