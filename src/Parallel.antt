-- ===== src/Parallel.antt =====
-- backend/parallel.py. A call ends with a value, which may be None, or raises an exception, known by
-- its text; the pool itself has no effect on the results.
pub mod Results
use bricktrace.Prelude.{String, List, [], ◌∷◌, Option, none, some}

pub data Outcome {ℓ} (A : Type ℓ) : Type ℓ where
  returned : A → Outcome A
  raised : String → Outcome A

-- [x]
unfoldable pub one {ℓ} : {A : Type ℓ} → Outcome A → Outcome (List A)
one (returned x) = returned (x ∷ [])
one (raised e) = raised e

module _ {ℓ} {A : Type ℓ} where
  -- A failed call leaves None in the list of results.
  unfoldable pub or_none : Outcome (Option A) → Option A
  or_none (returned x) = x
  or_none (raised e) = none

  -- [r for r in results if r is not None]
  unfoldable pub keep_one : Option A → List (Option A) → List (Option A)
  keep_one none rest = rest
  keep_one (some x) rest = some x ∷ rest

  unfoldable pub gather : List (Outcome (Option A)) → List (Option A)
  unfolding keep_one or_none
  gather [] = []
  gather (o ∷ os) = keep_one (or_none o) (gather os)

  -- `map_parallel`, given the outcome of the call for each item.
  unfoldable pub map_parallel : List (Outcome (Option A)) → Outcome (List (Option A))
  unfolding one gather
  map_parallel [] = returned []
  map_parallel (o ∷ []) = one o
  map_parallel (o ∷ p ∷ os) = returned (gather (o ∷ p ∷ os))

  unfoldable pub cons_result : Outcome A → Outcome (List A) → Outcome (List A)
  cons_result (raised e) rest = raised e
  cons_result (returned x) (raised e) = raised e
  cons_result (returned x) (returned xs) = returned (x ∷ xs)

  -- [f.result() for f in futures]
  unfoldable pub all_results : List (Outcome A) → Outcome (List A)
  unfolding cons_result
  all_results [] = returned []
  all_results (o ∷ os) = cons_result o (all_results os)

  unfoldable pub run_parallel : List (Outcome A) → Outcome (List A)
  unfolding one all_results
  run_parallel [] = returned []
  run_parallel (o ∷ []) = one o
  run_parallel (o ∷ p ∷ os) = all_results (o ∷ p ∷ os)
