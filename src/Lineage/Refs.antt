-- ===== src/Lineage/Refs.antt =====
-- The node ids of backend/lineage_service.py. A field of a row that may be None is an option.
use bricktrace.Prelude.{String, ◌==◌, if◌then◌else◌, List, [], ◌∷◌, Option, none, some, ◌≡◌}
use bricktrace.Prelude.Text.{◌⊕◌, split, after_prefix, take, cons_not_empty}
use bricktrace.Prelude.Dict.{Dict, lookup}
use bricktrace.Validators.Url.{truthy}
use bricktrace.Validators.Escape.{text_of}

abbrev pub type_map : Dict String
type_map =
    ("TABLE", "TABLE")
    ∷ ("VIEW", "VIEW")
    ∷ ("MATERIALIZED_VIEW", "MATERIALIZED_VIEW")
    ∷ ("STREAMING_TABLE", "STREAMING_TABLE")
    ∷ []

-- type_map.get(ref_type, ref_type or "TABLE")
unfoldable pub display_type : Option String → String
unfolding lookup
display_type none = "TABLE"
display_type (some t) = elim (lookup t type_map) [
  | some shown ↦ shown
  | none ↦ if t == "" then "TABLE" else t
]

-- path.split("://", 1), `none` where there is no "://"
unfoldable pub split_scheme : String → Option (String × String)
unfolding after_prefix
split_scheme String.[] = none
split_scheme (String.◌∷◌ c s) =
    let rest = split_scheme s in
    elim (after_prefix "://" (String.◌∷◌ c s)) [
      | some behind ↦ some ("", behind)
      | none ↦ elim rest [
        | none ↦ none
        | some (scheme, behind) ↦ some (String.◌∷◌ c scheme, behind)
      ]
    ]

-- rest.split("/")[0]
unfoldable pub first_part : List String → String
first_part [] = ""
first_part (s ∷ _) = s

unfoldable pub volume_id : String → List String → String
unfolding ◌⊕◌
volume_id path (_ ∷ _ ∷ catalog ∷ schema ∷ volume ∷ _) = catalog ⊕ "." ⊕ schema ⊕ "." ⊕ volume
volume_id path _ = "volume:" ⊕ path

unfoldable pub storage_id : String → Option (String × String) → String
unfolding ◌⊕◌ first_part split
storage_id path (some (scheme, rest)) = "path:" ⊕ scheme ⊕ "://" ⊕ first_part (split b'/' rest)
storage_id path none = "path:" ⊕ take 80 path

-- A path without the scheme that writes to volumes carry.
unfoldable pub without_dbfs : String → String
unfolding after_prefix ◌⊕◌
without_dbfs path = elim (after_prefix "dbfs:/Volumes/" path) [
  | some rest ↦ "/Volumes/" ⊕ rest
  | none ↦ path
]

unfoldable pub parse_path : String → String × String
unfolding after_prefix volume_id storage_id split_scheme split
parse_path path = elim (after_prefix "/Volumes/" path) [
  | some _ ↦ (volume_id path (split b'/' path), "VOLUME")
  | none ↦ (storage_id path (split_scheme path), "PATH")
]

unfoldable pub parse_lineage_ref :
    Option String → Option String → Option String → Option String × Option String
unfolding truthy text_of display_type without_dbfs parse_path
parse_lineage_ref table_full_name path ref_type =
    if truthy table_full_name
    then (table_full_name, some (display_type ref_type))
    else if truthy path
    then (
      some (parse_path (without_dbfs (text_of path))).0,
      some (parse_path (without_dbfs (text_of path))).1,
    )
    else (none, none)

unfoldable pub entity_key : String → String → Option String → String
unfolding ◌⊕◌ truthy text_of
entity_key entity_type entity_id workspace_id =
    if truthy workspace_id
    then "entity:" ⊕ text_of workspace_id ⊕ ":" ⊕ entity_type ⊕ ":" ⊕ entity_id
    else "entity:" ⊕ entity_type ⊕ ":" ⊕ entity_id

-- A volume path has the same node and type with the dbfs scheme, as writes report it, and without.
pub parse_lineage_ref-dbfs :
    (rest : String) (ref_type : Option String)
    → parse_lineage_ref none (some ("dbfs:/Volumes/" ⊕ rest)) ref_type
      ≡ parse_lineage_ref none (some ("/Volumes/" ⊕ rest)) ref_type
unfolding parse_lineage_ref without_dbfs truthy text_of ◌⊕◌ after_prefix
parse_lineage_ref-dbfs rest ref_type =
    rw (cons_not_empty "d" ("bfs:/Volumes/" ⊕ rest), cons_not_empty "/" ("Volumes/" ⊕ rest))
