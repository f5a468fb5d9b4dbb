-- ===== src/RootCause/Tables.antt =====
-- backend/server/root_cause.py: the walk over tables, the health of their producers, and the trace by
-- health. Parameters are the rows of the queries (`none` where a query raises), the health that
-- backend/server/observability.py reports, and the reading of timestamps.
pub mod Suspect
pub mod Rows
pub mod Advance
pub mod Nearest
use bricktrace.Prelude.{
  ℕ, zero, suc, ◌+◌, ◌==◌, ◌||◌, ◌&&◌, not, Bool, true, false, String, List, [], ◌∷◌, ◌++◌, Option,
  none, some, if◌then◌else◌, ltb, leb, eqb,
}
use bricktrace.Prelude.Text.{◌⊕◌, split}
use bricktrace.Prelude.Dict.{Dict, insert, known}
use bricktrace.Prelude.Sort.{sort_by}
use bricktrace.Validators.Url.{truthy}
use bricktrace.Validators.Escape.{text_of}
use bricktrace.Build.Graph.{or_text}
use bricktrace.RootCause.Evidence.{str_of}

-- The loop over the rows of one hop: the tables met and the next frontier.
unfoldable pub add_sources :
    String → ℕ → List (Option String) → Dict ℕ → List String → Dict ℕ × List String
unfolding truthy text_of known insert
add_sources start hop [] visited nxt = (visited, nxt)
add_sources start hop (t ∷ rows) visited nxt =
    let fresh = truthy t && not (text_of t == start) && not (known visited (text_of t)) in
    add_sources start hop rows (if fresh then insert (text_of t) hop visited else visited)
      (if fresh then nxt ++ text_of t ∷ [] else nxt)

module _ (query : List String → Option (List (Option String))) (start : String) where
  -- One round; where the query raises the loop breaks, as with nothing left to visit.
  unfoldable pub next_tables : ℕ → Dict ℕ → Option (List (Option String)) → Dict ℕ × List String
  unfolding add_sources
  next_tables hop visited none = (visited, [])
  next_tables hop visited (some rows) = add_sources start hop rows visited []

  unfoldable pub table_round : ℕ → Dict ℕ → List String → Dict ℕ × List String
  unfolding next_tables
  table_round hop visited [] = (visited, [])
  table_round hop visited (t ∷ ts) = next_tables (suc hop) visited (query (t ∷ ts))

  -- The first number is max_hops - hop.
  unfoldable pub walk_tables : ℕ → ℕ → Dict ℕ → List String → Dict ℕ
  unfolding table_round
  walk_tables zero hop visited frontier = visited
  walk_tables (suc left) hop visited frontier =
      let r = table_round hop visited frontier in walk_tables left (suc hop) r.0 r.1

  unfoldable pub walk_upstream_tables : ℕ → Dict ℕ
  unfolding walk_tables
  walk_upstream_tables max_hops = walk_tables max_hops 0 [] (start ∷ [])

pub data Status : Type 0 where
  failed stale healthy no_history : Status

-- _STATUS_RANK
unfoldable pub status_rank : Status → ℕ
status_rank failed = 3
status_rank stale = 2
status_rank healthy = 1
status_rank no_history = 0

pub record Producer : Type 0 where
  pub entity_type : Option String
  pub entity_id : String

-- What backend/server/observability.py reports of a job or a pipeline.
pub record RunHealth : Type 0 where
  pub total : ℕ
  pub last_result : Option String
  pub last_at : Option String
  pub success_rate : Option String

pub record Health : Type 0 where
  pub entity_type : String
  pub entity_id : String
  pub status : Status
  pub last_result : Option String
  pub last_run_at : Option String
  pub success_rate : Option String

unfoldable pub is_failure : Option String → Bool
is_failure none = false
is_failure (some result) = result == "FAILED" || result == "TIMEDOUT" || result == "CANCELED"

module _ (upper : String → String) (job_health pipeline_health : String → RunHealth)
    (is_old : String → Bool) where
  -- The last run is older than STALE_DAYS; `is_old` is false where the timestamp does not parse.
  unfoldable pub run_status : RunHealth → Status
  unfolding is_failure truthy text_of
  run_status h =
      if eqb h.total 0
      then no_history
      else if is_failure h.last_result
      then failed
      else if truthy h.last_at && is_old (text_of h.last_at)
      then stale
      else healthy

  unfoldable pub health_of : String → String → RunHealth → Health
  unfolding run_status truthy
  health_of et entity_id h = record {
    entity_type = et;
    entity_id = entity_id;
    status = run_status h;
    last_result = h.last_result;
    last_run_at = if truthy h.last_at then h.last_at else none;
    success_rate = h.success_rate;
  }

  unfoldable pub producer_health : Producer → Health
  unfolding health_of or_text
  producer_health p =
      let et = upper (or_text p.entity_type "") in
      if et == "JOB"
      then health_of et p.entity_id (job_health p.entity_id)
      else if et == "PIPELINE"
      then health_of et p.entity_id (pipeline_health p.entity_id)
      else record {
        entity_type = et;
        entity_id = p.entity_id;
        status = no_history;
        last_result = none;
        last_run_at = none;
        success_rate = none;
      }

  unfoldable pub healths_of : List Producer → List Health
  unfolding producer_health
  healths_of [] = []
  healths_of (p ∷ ps) = producer_health p ∷ healths_of ps

unfoldable pub producers_of : List (Option String × Option String) → List Producer
unfolding str_of
producers_of [] = []
producers_of ((et, id) ∷ rows) =
    record { entity_type = et; entity_id = str_of id } ∷ producers_of rows

-- _producers_for_table
unfoldable pub producers_for_table : Option (List (Option String × Option String)) → List Producer
unfolding producers_of
producers_for_table none = []
producers_for_table (some rows) = producers_of rows

-- max(healths, key=rank): the first of the greatest.
unfoldable pub worst_of : Health → List Health → Health
unfolding status_rank
worst_of best [] = best
worst_of best (h ∷ hs) =
    worst_of (if ltb (status_rank best.status) (status_rank h.status) then h else best) hs

pub record Flagged : Type 0 where
  pub table : String
  pub short_name : String
  pub hop : ℕ
  pub is_focus : Bool
  pub status : Status
  pub producers : List Health

pub record Counts : Type 0 where
  pub failed_count : ℕ
  pub stale_count : ℕ
  pub healthy_count : ℕ
  pub no_history_count : ℕ

unfoldable pub count_status : Status → Counts → Counts
count_status failed c = record c { failed_count = c.failed_count + 1 }
count_status stale c = record c { stale_count = c.stale_count + 1 }
count_status healthy c = record c { healthy_count = c.healthy_count + 1 }
count_status no_history c = record c { no_history_count = c.no_history_count + 1 }

unfoldable pub flags_before : Flagged → Flagged → Bool
unfolding status_rank
flags_before f g =
    ltb (status_rank g.status) (status_rank f.status)
    || (eqb (status_rank f.status) (status_rank g.status) && leb f.hop g.hop)

unfoldable pub is_bad : Status → Bool
is_bad failed = true
is_bad stale = true
is_bad healthy = false
is_bad no_history = false

unfoldable pub suspects_of : List Flagged → List Flagged
unfolding is_bad
suspects_of [] = []
suspects_of (f ∷ fs) =
    let rest = suspects_of fs in if is_bad f.status && not f.is_focus then f ∷ rest else rest

-- suspects[0] if suspects else (flagged[0] if flagged else None)
unfoldable pub first_of : List Flagged → List Flagged → Option Flagged
first_of (f ∷ fs) flagged = some f
first_of [] (f ∷ fs) = some f
first_of [] [] = none

unfoldable pub chain_of : ℕ → List Flagged → List Flagged
unfolding is_bad
chain_of hop [] = []
chain_of hop (f ∷ fs) =
    let rest = chain_of hop fs in
    if leb f.hop hop && (f.is_focus || is_bad f.status) then f ∷ rest else rest

unfoldable pub nearer : Flagged → Flagged → Bool
nearer f g = leb f.hop g.hop

unfoldable pub failure_path : Option Flagged → List Flagged → List Flagged
unfolding chain_of sort_by nearer
failure_path none flagged = []
failure_path (some prime) flagged =
    if prime.is_focus then [] else sort_by nearer (chain_of prime.hop flagged)

-- ".".join(tbl.split(".")[-2:])
unfoldable pub last_two : List String → String
unfolding ◌⊕◌
last_two [] = ""
last_two (a ∷ []) = a
last_two (a ∷ b ∷ []) = a ⊕ "." ⊕ b
last_two (a ∷ b ∷ c ∷ rest) = last_two (b ∷ c ∷ rest)

unfoldable pub short_of : String → String
unfolding last_two split
short_of tbl = last_two (split b'.' tbl)

pub record TableTrace : Type 0 where
  pub counts : Counts
  pub prime_suspect : Option Flagged
  pub path : List Flagged
  pub flagged : List Flagged

module _ (focus : String) (healths : String → List Health) where
  unfoldable pub flag : String → ℕ → List Health → List Flagged
  unfolding worst_of short_of
  flag tbl hop [] = []
  flag tbl hop (h ∷ hs) =
      record {
        table = tbl;
        short_name = short_of tbl;
        hop = hop;
        is_focus = tbl == focus;
        status = (worst_of h hs).status;
        producers = h ∷ hs;
      }
      ∷ []

  unfoldable pub flag_all : Dict ℕ → List Flagged
  unfolding flag
  flag_all [] = []
  flag_all ((tbl, hop) ∷ tables) = flag tbl hop (healths tbl) ++ flag_all tables

  unfoldable pub counts_of : List Flagged → Counts → Counts
  unfolding count_status
  counts_of [] c = c
  counts_of (f ∷ fs) c = counts_of fs (count_status f.status c)

  -- trace_root_cause_table behind the walk, whose tables never include the focus.
  unfoldable pub trace_root_cause_table : Dict ℕ → TableTrace
  unfolding flag_all counts_of sort_by flags_before first_of suspects_of failure_path
  trace_root_cause_table upstream =
      let found = flag_all ((focus, 0) ∷ upstream) in
      let flagged = sort_by flags_before found in
      let prime = first_of (suspects_of flagged) flagged in
      record {
        counts =
            counts_of found (record {
              failed_count = 0;
              stale_count = 0;
              healthy_count = 0;
              no_history_count = 0;
            });
        prime_suspect = prime;
        path = failure_path prime flagged;
        flagged = flagged;
      }

-- The trace of a table, with the health of the producers of every table on the way.
unfoldable pub trace_from :
    (String → String)
    → (String → RunHealth)
    → (String → RunHealth)
    → (String → Bool)
    → (String → Option (List (Option String × Option String)))
    → (List String → Option (List (Option String)))
    → String
    → String
    → String
    → ℕ
    → TableTrace
unfolding trace_root_cause_table healths_of producers_for_table walk_upstream_tables ◌⊕◌
trace_from upper job_health pipeline_health is_old producer_rows query catalog schema table
      max_hops =
    let focus = catalog ⊕ "." ⊕ schema ⊕ "." ⊕ table in
    trace_root_cause_table focus
      (λ tbl.
        healths_of upper job_health pipeline_health is_old
          (producers_for_table (producer_rows tbl)))
      (walk_upstream_tables query focus max_hops)
