-- ===== src/Tests/Trace.antt =====
-- Tests and examples of Lineage.Trace.
use mathlib.Core.List.{Memᴰ}
use bricktrace.Prelude.{◌≡◌, refl, Bool, true, [], ◌∷◌, none, some, String, elem}
use bricktrace.Lineage.Trace.{
  LineageRow, Direction, up, down, match_of, same_key, same_text, has_row, collect, World, walker,
  set_walker, begin, first_walker, may_ask, ask, meet, Answers, no_rows, row, asks, Reach, here,
  next,
}
use bricktrace.Lineage.Trace.Cone.{IsOfCone, collected_in_cone}

abbrev edge : String → String → LineageRow
edge a b = record {
  source_table_full_name = some a;
  target_table_full_name = some b;
  source_path = none;
  target_path = none;
  entity_id = none;
}

-- The table holds the edge from "T" to "S".
abbrev in_table : LineageRow → Bool
in_table r = same_key r (edge "T" "S")

-- The walk up has asked for the rows of the seed.
abbrev asked : World
asked = ask 800 5000 up (edge "T" "S" ∷ []) (begin "S")

head_of_up : (walker up (begin "S")).at_head ≡ true
unfolding walker begin first_walker
head_of_up = refl

up_may_ask : may_ask 800 5000 (walker up (begin "S")) (begin "S") ≡ true
unfolding may_ask walker begin first_walker
up_may_ask = refl

up_answer : Answers in_table up (walker up (begin "S")).frontier (edge "T" "S" ∷ [])
unfolding walker begin first_walker elem match_of same_key same_text
up_answer = row (edge "T" "S") "S" [] refl refl refl no_rows

asked_is_reached : Reach 800 5000 in_table (begin "S") asked
asked_is_reached = next here (asks up (edge "T" "S" ∷ []) head_of_up up_may_ask up_answer)

edge_is_collected : Memᴰ (edge "T" "S") asked.lineage_rows
unfolding ask walker begin first_walker set_walker collect has_row
edge_is_collected = Memᴰ.head refl

collected_in_cone_example : (d : Direction) × IsOfCone in_table "S" d (edge "T" "S")
collected_in_cone_example =
    collected_in_cone in_table "S" 800 5000 asked_is_reached (edge "T" "S") edge_is_collected

-- S and T lead to each other, and T to U. When the walk up has met T first, the walk down finds T seen.
abbrev after_up : World
after_up = meet up (some "T") [] asked

down_meets_nothing : (meet down (some "T") [] after_up).down_walker.nxt ≡ []
unfolding ask meet walker begin first_walker set_walker collect has_row elem
down_meets_nothing = refl
