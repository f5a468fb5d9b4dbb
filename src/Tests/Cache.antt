-- ===== src/Tests/Cache.antt =====
-- Tests and examples of Cache.
use bricktrace.Prelude.{
  ◌≡◌, refl, String, true, false, ◌==◌, if◌then◌else◌, [], ◌∷◌, ◌++◌, Option, none, some, arith,
}
use bricktrace.Prelude.Text.{length, ◌⊕◌, after_prefix}
use bricktrace.Cache.Delta.{Row, Cache, get, set, invalidate, encode, entries}
use bricktrace.Cache.Delta.Reads.{IsFaithful, get-set, get-set_other, get-invalidate}
use bricktrace.Cache.Capability
use bricktrace.Cache.Capability.{evict, serve_or_compute, computed}
use bricktrace.Cache.Capability.Evict.{serve_or_compute-evict}
use bricktrace.Cache.Delta.Recent.{entries-packed}

abbrev digest : String → String
digest key = key

-- The values are texts in quotes; packing is the identity, except on one text.
abbrev dumps : String → String
dumps v = String.◌∷◌ "\"" v

abbrev loads : String → Option String
loads String.[] = none
loads (String.◌∷◌ c s) = if String.◌∷◌ c "" == "\"" then some s else none

abbrev pack : String → String
pack s = if s == "\"aaaaaa" then "a" else s

abbrev unpack : String → Option String
unpack s = if s == "a" then some "\"aaaaaa" else some s

abbrev empty : Cache
empty = record { ready = false; rows = []; hit_buffer = []; last_flush = 0 }

abbrev stored_row : Row
stored_row = record {
  cache_key = "k";
  cache_ns = "lineage";
  value_json = some "gz1:a";
  created_at = 5;
  expires_at = 65;
  hit_count = 0;
}

abbrev filled : Cache
filled = record { ready = true; rows = stored_row ∷ []; hit_buffer = []; last_flush = 0 }

faithful : IsFaithful digest dumps loads pack unpack length "aaaaaa"
unfolding after_prefix
faithful = record { reads_back = refl; unpacks = refl; unmarked = refl }

get-set_example :
    ((set digest dumps loads pack unpack length true 5 "k" "aaaaaa" 60 "lineage" empty).1 ≡ true)
    × ((get digest dumps loads pack unpack length true 30 7 "k" "lineage"
          (set digest dumps loads pack unpack length true 5 "k" "aaaaaa" 60 "lineage" empty).0).1
        ≡ some "aaaaaa")
unfolding encode ◌⊕◌
get-set_example =
    get-set digest dumps loads pack unpack length 5 30 7 "k" "lineage" "aaaaaa" 60 empty faithful
      (omega arith) (omega arith)

get-set_other_example :
    (get digest dumps loads pack unpack length true 30 7 "k" "lineage"
      (set digest dumps loads pack unpack length true 5 "j" "b" 60 "lineage" filled).0).1
    ≡ (get digest dumps loads pack unpack length true 30 7 "k" "lineage" filled).1
get-set_other_example =
    get-set_other digest dumps loads pack unpack length true 5 30 7 "j" "k" "lineage" "lineage" "b"
      60 filled refl

get-invalidate_example :
    (get digest dumps loads pack unpack length true 6 7 "k" "lineage"
      (invalidate digest dumps loads pack unpack length true 6 "k" "lineage" filled).0).1
    ≡ none
get-invalidate_example =
    get-invalidate digest dumps loads pack unpack length true 6 6 7 "k" "lineage" filled
      (omega arith)

entries-packed_example :
    entries digest dumps loads pack unpack length ([] ++ stored_row ∷ [])
    ≡ entries digest dumps loads pack unpack length ([] ++ [])
unfolding encode ◌⊕◌
entries-packed_example =
    entries-packed digest dumps loads pack unpack length "aaaaaa" stored_row [] [] (λ s. refl)
      (omega arith) refl

abbrev panels : Capability.CapabilityCache
panels = record { ready = true; rows = [] }

serve_or_compute-evict_example :
    (serve_or_compute dumps loads length true 9 "c.s.t" "impact"
      (some "new")
      "me"
      false
      (evict true "c.s.t" "impact" panels).0).1
    ≡ computed "new"
serve_or_compute-evict_example =
    serve_or_compute-evict dumps loads length true 9 "c.s.t" "impact" "me" "new" false panels
