-- ===== src/Lineage/Trace.antt =====
-- backend/lineage_service.py, `_fetch_lineage_trace`: the walk up and the walk down, two threads that
-- share the set of tables seen, the rows collected and the flag for a partial result. The steps that
-- may interleave are a query with the collecting of its rows, one row that is looked at, and the end
-- of an iteration. The set of tables is a list, as the order of the frontier is left open.
pub mod Cone
use bricktrace.Prelude.{
  ℕ, zero, suc, ◌+◌, ◌-◌, ◌≡◌, ◌==◌, ◌||◌, ◌&&◌, not, Bool, true, false, String, List, [], ◌∷◌,
  ◌++◌, Option, none, some, elem, length, if◌then◌else◌, ltb, leb,
}
use bricktrace.Validators.Url.{truthy}
use bricktrace.Validators.Escape.{text_of}

pub record LineageRow : Type 0 where
  pub source_table_full_name : Option String
  pub target_table_full_name : Option String
  pub source_path : Option String
  pub target_path : Option String
  pub entity_id : Option String

pub data Direction : Type 0 where
  up down : Direction

-- match_col and next_col
unfoldable pub match_of : Direction → LineageRow → Option String
match_of up r = r.target_table_full_name
match_of down r = r.source_table_full_name

unfoldable pub next_of : Direction → LineageRow → Option String
next_of up r = r.source_table_full_name
next_of down r = r.target_table_full_name

unfoldable pub same_text : Option String → Option String → Bool
same_text none none = true
same_text none (some t) = false
same_text (some s) none = false
same_text (some s) (some t) = s == t

-- The key of a row, compared.
unfoldable pub same_key : LineageRow → LineageRow → Bool
unfolding same_text
same_key r s =
    same_text r.source_table_full_name s.source_table_full_name
    && same_text r.target_table_full_name s.target_table_full_name
    && same_text r.source_path s.source_path
    && same_text r.target_path s.target_path
    && same_text r.entity_id s.entity_id

unfoldable pub has_row : LineageRow → List LineageRow → Bool
unfolding same_key
has_row r [] = false
has_row r (s ∷ rows) = same_key r s || has_row r rows

-- _collect
unfoldable pub collect : List LineageRow → List LineageRow → List LineageRow
unfolding has_row
collect [] lineage_rows = lineage_rows
collect (r ∷ rows) lineage_rows =
    collect rows (if has_row r lineage_rows then lineage_rows else lineage_rows ++ r ∷ [])

-- One `_walk`: its frontier, the next one, the rows still to look at, the iterations left, and whether
-- it stands at the head of the loop.
pub record Walker : Type 0 where
  pub frontier : List String
  pub nxt : List String
  pub to_look_at : List LineageRow
  pub iterations_left : ℕ
  pub at_head : Bool

pub record World : Type 0 where
  pub seen_all : List String
  pub lineage_rows : List LineageRow
  pub truncated : Bool
  pub up_walker : Walker
  pub down_walker : Walker

unfoldable pub walker : Direction → World → Walker
walker up w = w.up_walker
walker down w = w.down_walker

unfoldable pub set_walker : Direction → Walker → World → World
set_walker up u w = record w { up_walker = u }
set_walker down u w = record w { down_walker = u }

abbrev pub max_iters : ℕ
max_iters = 16

unfoldable pub first_walker : String → Walker
first_walker seed = record {
  frontier = seed ∷ [];
  nxt = [];
  to_look_at = [];
  iterations_left = max_iters;
  at_head = true;
}

unfoldable pub begin : String → World
unfolding first_walker
begin seed = record {
  seen_all = seed ∷ [];
  lineage_rows = [];
  truncated = false;
  up_walker = first_walker seed;
  down_walker = first_walker seed;
}

module _ (node_cap hop_max_rows : ℕ) where
  -- An iteration goes on to its query.
  unfoldable pub may_ask : Walker → World → Bool
  may_ask u w =
      not (ltb node_cap (length w.seen_all)) && ltb 0 u.iterations_left && ltb 0 (length u.frontier)

  -- The query has returned these rows, which are collected.
  unfoldable pub ask : Direction → List LineageRow → World → World
  unfolding set_walker walker collect
  ask d rows w =
      let u = walker d w in
      set_walker d
        (record u {
          to_look_at = rows;
          nxt = [];
          iterations_left = u.iterations_left - 1;
          at_head = false;
        })
        (record w {
          lineage_rows = collect rows w.lineage_rows;
          truncated = w.truncated || leb hop_max_rows (length rows);
        })

  -- The loop is left: for the cap of nodes, for an empty frontier, or with no iteration left. The cap
  -- and a frontier that is not empty make the result partial.
  unfoldable pub leave : Direction → World → World
  unfolding walker
  leave d w =
      let u = walker d w in
      record w {
        truncated =
            w.truncated
            || (ltb 0 u.iterations_left && ltb node_cap (length w.seen_all))
            || ltb 0 (length u.frontier);
      }

-- A table that was not seen joins the next frontier.
unfoldable pub meet : Direction → Option String → List LineageRow → World → World
unfolding set_walker walker elem truthy text_of
meet d fn rest w =
    let u = walker d w in
    if truthy fn && not (elem (text_of fn) w.seen_all)
    then set_walker d (record u { to_look_at = rest; nxt = u.nxt ++ text_of fn ∷ [] })
        (record w { seen_all = text_of fn ∷ w.seen_all })
    else set_walker d (record u { to_look_at = rest }) w

-- frontier = nxt
unfoldable pub turn : Direction → World → World
unfolding set_walker walker
turn d w =
    let u = walker d w in set_walker d (record u { frontier = u.nxt; nxt = []; at_head = true }) w

-- What the statement promises: rows of the table whose matched column is in the frontier.
pub data Answers (in_table : LineageRow → Bool) (d : Direction) (frontier : List String)
    : List LineageRow → Type 0 where
  no_rows : Answers in_table d frontier []
  row :
      (r : LineageRow) (t : String) (rows : List LineageRow)
      → in_table r ≡ true
      → match_of d r ≡ some t
      → elem t frontier ≡ true
      → Answers in_table d frontier rows
      → Answers in_table d frontier (r ∷ rows)

pub data Step (node_cap hop_max_rows : ℕ) (in_table : LineageRow → Bool) (w : World)
    : World → Type 0 where
  asks :
      (d : Direction) (rows : List LineageRow)
      → (walker d w).at_head ≡ true
      → may_ask node_cap hop_max_rows (walker d w) w ≡ true
      → Answers in_table d (walker d w).frontier rows
      → Step node_cap hop_max_rows in_table w (ask node_cap hop_max_rows d rows w)
  meets :
      (d : Direction) (r : LineageRow) (rest : List LineageRow)
      → (walker d w).to_look_at ≡ r ∷ rest
      → Step node_cap hop_max_rows in_table w (meet d (next_of d r) rest w)
  turns :
      (d : Direction)
      → (walker d w).at_head ≡ false
      → (walker d w).to_look_at ≡ []
      → Step node_cap hop_max_rows in_table w (turn d w)
  leaves :
      (d : Direction)
      → (walker d w).at_head ≡ true
      → may_ask node_cap hop_max_rows (walker d w) w ≡ false
      → Step node_cap hop_max_rows in_table w (leave node_cap hop_max_rows d w)

pub data Reach (node_cap hop_max_rows : ℕ) (in_table : LineageRow → Bool) (w : World)
    : World → Type 0 where
  here : Reach node_cap hop_max_rows in_table w w
  next :
      {u v : World}
      → Reach node_cap hop_max_rows in_table w u
      → Step node_cap hop_max_rows in_table u v
      → Reach node_cap hop_max_rows in_table w v
