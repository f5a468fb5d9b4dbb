-- ===== src/Tests/Parallel.antt =====
-- Tests and examples of Parallel.
use bricktrace.Prelude.{ℕ, ◌≡◌, List, [], ◌∷◌, ◌++◌, some, map, arith}
use bricktrace.Parallel.{returned, raised, map_parallel, run_parallel}
use bricktrace.Parallel.Results.{
  succeed, values, finish, failure_is_hidden, first_exception_is_raised,
}

abbrev one_value : List ℕ
one_value = 1 ∷ []

abbrev two_values : List ℕ
two_values = 1 ∷ 2 ∷ []

failure_is_hidden_example :
    map_parallel (succeed one_value ++ raised "timeout" ∷ raised "late" ∷ succeed two_values)
    ≡ returned (
        map some (values (succeed one_value))
        ++ map some (values (raised "late" ∷ succeed two_values)))
failure_is_hidden_example =
    failure_is_hidden (succeed one_value) "timeout" (raised "late" ∷ succeed two_values)
      (omega arith)

first_exception_is_raised_example :
    run_parallel (finish one_value ++ raised "timeout" ∷ raised "late" ∷ []) ≡ raised "timeout"
first_exception_is_raised_example =
    first_exception_is_raised one_value "timeout" (raised "late" ∷ [])
