-- ===== src/RootCause/Columns.antt =====
-- backend/server/root_cause.py, `_walk_upstream_columns`. The query is a parameter: the rows for a
-- table and a column, `none` where it raises; a text of a row may be NULL.
pub mod Ends
use bricktrace.Prelude.{
  ℕ, zero, suc, ◌+◌, ◌*◌, ◌-◌, ◌==◌, ◌||◌, ◌&&◌, Bool, true, false, String, List, [], ◌∷◌, ◌++◌,
  Option, none, some, if◌then◌else◌, leb,
}
use bricktrace.Validators.Url.{truthy}
use bricktrace.Validators.Escape.{text_of}

pub record UpstreamColumn : Type 0 where
  pub table : String
  pub column : String
  pub hop : ℕ

-- (source_table_full_name, source_column_name)
abbrev pub SourceRow : Type 0
SourceRow = Option String × Option String

-- (tbl, col) in visited
unfoldable pub was_visited : String → String → List (String × String) → Bool
was_visited tbl col [] = false
was_visited tbl col ((t, c) ∷ visited) = (tbl == t && col == c) || was_visited tbl col visited

-- The rows with a table and a column, one hop further.
unfoldable pub sources_of : ℕ → List SourceRow → List UpstreamColumn
unfolding truthy text_of
sources_of hop [] = []
sources_of hop ((t, c) ∷ rows) =
    let rest = sources_of hop rows in
    if truthy t && truthy c
    then record { table = text_of t; column = text_of c; hop = hop } ∷ rest
    else rest

unfoldable pub fetched : ℕ → Option (List SourceRow) → List UpstreamColumn
unfolding sources_of
fetched hop none = []
fetched hop (some rows) = sources_of hop rows

pub record Walk : Type 0 where
  pub visited : List (String × String)
  pub path : List UpstreamColumn
  pub frontier : List UpstreamColumn

-- What one column can cost: the rounds for it and for all that is queued because of it.
unfoldable pub cost : ℕ → ℕ
cost zero = 1
cost (suc hops) = 1 + 30 * cost hops

module _ (query : String → String → Option (List SourceRow)) (max_hops : ℕ) where
  -- One round of the loop, for the first of the queue.
  unfoldable pub take_first : UpstreamColumn → List UpstreamColumn → Walk → Walk
  unfolding was_visited fetched
  take_first u rest w =
      let found = fetched (suc u.hop) (query u.table u.column) in
      if was_visited u.table u.column w.visited || leb max_hops u.hop
      then record w { frontier = rest }
      else record {
        visited = (u.table, u.column) ∷ w.visited;
        path = w.path ++ found;
        frontier = rest ++ found;
      }

  unfoldable pub round : List UpstreamColumn → Walk → Walk
  unfolding take_first
  round [] w = w
  round (u ∷ rest) w = take_first u rest w

  -- `none` where something is still queued.
  unfoldable pub path_of : List UpstreamColumn → Walk → Option (List UpstreamColumn)
  path_of [] w = some w.path
  path_of (u ∷ rest) w = none

  -- So many rounds of `while frontier`; with an empty queue a round does nothing.
  unfoldable pub walk : ℕ → Walk → Option (List UpstreamColumn)
  unfolding round path_of
  walk zero w = path_of w.frontier w
  walk (suc rounds) w = walk rounds (round w.frontier w)

  unfoldable pub walk_upstream_columns : String → String → Option (List UpstreamColumn)
  unfolding walk cost
  walk_upstream_columns start_table start_column = walk (cost max_hops) (record {
    visited = [];
    path = [];
    frontier = record { table = start_table; column = start_column; hop = 0 } ∷ [];
  })
