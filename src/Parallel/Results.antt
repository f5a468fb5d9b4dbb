-- ===== src/Parallel/Results.antt =====
-- What callers of backend/parallel.py get when calls fail.
use bricktrace.Prelude.{
  ◌≤◌, String, List, [], ◌∷◌, ◌++◌, Option, none, some, length, map, ◌≡◌, refl, ap, arith,
}
use bricktrace.Parallel.{
  Outcome, returned, raised, one, or_none, keep_one, gather, map_parallel, cons_result, all_results,
  run_parallel,
}

module _ {ℓ} {A : Type ℓ} where
  -- The calls that return these values.
  abbrev pub succeed : List A → List (Outcome (Option A))
  succeed [] = []
  succeed (x ∷ xs) = returned (some x) ∷ succeed xs

  gather-succeed : (xs : List A) → gather (succeed xs) ≡ map some xs
  unfolding gather keep_one or_none
  gather-succeed [] = refl
  gather-succeed (x ∷ xs) = ap (◌∷◌ (some x)) (gather-succeed xs)

  -- Where every call returns a value that is not None, map_parallel returns these values in the
  -- order of the items, however many there are.
  pub map_parallel-succeed : (xs : List A) → map_parallel (succeed xs) ≡ returned (map some xs)
  unfolding map_parallel one
  map_parallel-succeed [] = refl
  map_parallel-succeed (x ∷ []) = refl
  map_parallel-succeed (x ∷ y ∷ xs) = ap returned (gather-succeed (x ∷ y ∷ xs))

  -- The values of the calls that return one that is not None, in the order of the calls.
  abbrev pub values : List (Outcome (Option A)) → List A
  values [] = []
  values (returned (some x) ∷ os) = x ∷ values os
  values (returned none ∷ os) = values os
  values (raised e ∷ os) = values os

  gather-values : (os : List (Outcome (Option A))) → gather os ≡ map some (values os)
  unfolding gather keep_one or_none
  gather-values [] = refl
  gather-values (returned (some x) ∷ os) = ap (◌∷◌ (some x)) (gather-values os)
  gather-values (returned none ∷ os) = gather-values os
  gather-values (raised e ∷ os) = gather-values os

  gather-append : (xs ys : List (Outcome (Option A))) → gather (xs ++ ys) ≡ gather xs ++ gather ys
  unfolding gather keep_one or_none
  gather-append [] ys = refl
  gather-append (returned (some x) ∷ xs) ys = ap (◌∷◌ (some x)) (gather-append xs ys)
  gather-append (returned none ∷ xs) ys = gather-append xs ys
  gather-append (raised e ∷ xs) ys = gather-append xs ys

  gather_failed :
      (before : List (Outcome (Option A))) (e : String) (behind : List (Outcome (Option A)))
      → gather (before ++ raised e ∷ behind) ≡ map some (values before) ++ map some (values behind)
  unfolding gather keep_one or_none
  gather_failed before e behind =
      rw (gather-append before (raised e ∷ behind), gather-values before, gather-values behind)

  -- Among two or more items a call that raises is dropped and its exception is hidden, wherever it
  -- stands and whatever the other calls do: map_parallel returns exactly the values that are not None
  -- of the other calls that return, in the order of the items.
  pub failure_is_hidden :
      (before : List (Outcome (Option A))) (e : String) (behind : List (Outcome (Option A)))
      → 2 ≤ length (before ++ raised e ∷ behind)
      → map_parallel (before ++ raised e ∷ behind)
        ≡ returned (map some (values before) ++ map some (values behind))
  unfolding map_parallel
  failure_is_hidden [] e [] h = absurd (omega arith)
  failure_is_hidden [] e (o ∷ os) h = ap returned (gather_failed [] e (o ∷ os))
  failure_is_hidden (o ∷ []) e behind h = ap returned (gather_failed (o ∷ []) e behind)
  failure_is_hidden (o ∷ p ∷ os) e behind h = ap returned (gather_failed (o ∷ p ∷ os) e behind)

  -- The calls that return these values, of any kind.
  abbrev pub finish : List A → List (Outcome A)
  finish [] = []
  finish (x ∷ xs) = returned x ∷ finish xs

  all_results_raised :
      (xs : List A) (e : String) (behind : List (Outcome A))
      → all_results (finish xs ++ raised e ∷ behind) ≡ raised e
  unfolding all_results cons_result
  all_results_raised [] e behind = refl
  all_results_raised (x ∷ xs) e behind = rw (all_results_raised xs e behind)

  -- run_parallel raises the exception of the first call, in the order of the functions, that raises.
  pub first_exception_is_raised :
      (xs : List A) (e : String) (behind : List (Outcome A))
      → run_parallel (finish xs ++ raised e ∷ behind) ≡ raised e
  unfolding run_parallel one all_results cons_result
  first_exception_is_raised [] e [] = refl
  first_exception_is_raised [] e (o ∷ os) = refl
  first_exception_is_raised (x ∷ []) e behind = all_results_raised (x ∷ []) e behind
  first_exception_is_raised (x ∷ y ∷ xs) e behind = all_results_raised (x ∷ y ∷ xs) e behind
