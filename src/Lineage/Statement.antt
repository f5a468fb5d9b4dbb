-- ===== src/Lineage/Statement.antt =====
-- backend/lineage_service.py, `_execute_sql`: a statement behind the gate of the warehouse. Parameters
-- are the answers of the statement API (`none` where a call raises) and the readings of the clock:
-- reading 0 sets the deadline, reading k + 1 is compared with it in round k.
pub mod Ends
use bricktrace.Prelude.{
  ℕ, zero, suc, ◌+◌, Bool, true, false, String, List, [], ◌∷◌, Option, none, some, if◌then◌else◌,
  ltb,
}
use bricktrace.Prelude.Dict.{Dict, insert}
use bricktrace.Validators.Url.{truthy}
use bricktrace.Warehouse.Gate.{
  Gate, Entry, entered, unavailable, busy, enter, Outcome, returned, raised, exit,
}

pub data StatementState : Type 0 where
  pending running succeeded failed canceled closed : StatementState

-- A missing result or array of data is the empty list.
pub record Response : Type 0 where
  pub state : StatementState
  pub error_message : Option String
  pub columns : List String
  pub data_array : List (List (Option String))

unfoldable pub in_progress : StatementState → Bool
in_progress pending = true
in_progress running = true
in_progress succeeded = false
in_progress failed = false
in_progress canceled = false
in_progress closed = false

-- How the body of the `with` block ends; `polling` where the rounds do not suffice.
pub data Polled : Type 0 where
  finished : Response → Polled
  timed_out call_raised polling : Polled

pub data SqlResult : Type 0 where
  rows : List (Dict (Option String)) → SqlResult
  no_warehouse exceeded api_raised still_polling : SqlResult
  refused : Entry → SqlResult
  sql_failed : Option String → SqlResult
  not_complete : StatementState → SqlResult

-- dict(zip(columns, row))
unfoldable pub dict_of : List String → List (Option String) → Dict (Option String)
unfolding insert
dict_of columns row = go columns row []
  where
    go : List String → List (Option String) → Dict (Option String) → Dict (Option String)
    go (c ∷ cs) (v ∷ vs) d = go cs vs (insert c v d)
    go [] vs d = d
    go (c ∷ cs) [] d = d

unfoldable pub rows_of_data :
    List String → List (List (Option String)) → List (Dict (Option String))
unfolding dict_of
rows_of_data columns [] = []
rows_of_data columns (row ∷ data_rows) = dict_of columns row ∷ rows_of_data columns data_rows

-- Behind the `with` block.
unfoldable pub result_of : Response → SqlResult
unfolding rows_of_data
result_of r = elim r.state [
  | failed ↦ sql_failed r.error_message
  | succeeded ↦ rows (rows_of_data r.columns r.data_array)
  | pending ↦ not_complete pending
  | running ↦ not_complete running
  | canceled ↦ not_complete canceled
  | closed ↦ not_complete closed
]

unfoldable pub result_of_polled : Polled → SqlResult
unfolding result_of
result_of_polled (finished r) = result_of r
result_of_polled timed_out = exceeded
result_of_polled call_raised = api_raised
result_of_polled polling = still_polling

-- What `__exit__` sees; a failure is recorded at this reading.
unfoldable pub outcome_of : ℕ → Polled → Outcome
outcome_of now (finished r) = returned
outcome_of now timed_out = raised now
outcome_of now call_raised = raised now
outcome_of now polling = returned

module _ (get_statement : ℕ → Option Response) (clock : ℕ → ℕ) (sql_poll_max_s : ℕ) where
  -- The loop from round k on, with so many rounds at most.
  unfoldable pub poll : ℕ → ℕ → Response → Polled
  unfolding in_progress
  poll zero k resp = if in_progress resp.state then polling else finished resp
  poll (suc rounds) k resp =
      let later : Polled = elim (get_statement k) [
        | none ↦ call_raised
        | some r ↦ poll rounds (suc k) r
      ] in
      if in_progress resp.state
      then (if ltb (clock 0 + sql_poll_max_s) (clock (suc k)) then timed_out else later)
      else finished resp

  unfoldable pub body : Option Response → Polled
  unfolding poll
  body none = call_raised
  body (some resp) = poll (suc (suc sql_poll_max_s)) 0 resp

  unfoldable pub behind_gate : ℕ → Option Response → Gate → Entry → Gate × SqlResult
  unfolding body outcome_of result_of_polled exit
  behind_gate left_at answer g entered =
      (exit (outcome_of left_at (body answer)) g, result_of_polled (body answer))
  behind_gate left_at answer g unavailable = (g, refused unavailable)
  behind_gate left_at answer g busy = (g, refused busy)

  -- `now` and `waited` are the readings of the gate, `left_at` that of its exit.
  unfoldable pub execute_sql : Option String → ℕ → ℕ → ℕ → Option Response → Gate → Gate × SqlResult
  unfolding behind_gate enter truthy
  execute_sql warehouse_id now waited left_at answer g =
      let (entry, e) = enter now waited g in
      if truthy warehouse_id then behind_gate left_at answer entry e else (g, no_warehouse)
