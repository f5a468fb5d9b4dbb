-- ===== src/RootCause/Tables/Rows.antt =====
-- The loop over the rows of one hop of the walk over tables, by its results.
use bricktrace.Prelude.{
  ℕ, ◌==◌, ◌||◌, ◌&&◌, not, String, List, [], ◌∷◌, ◌++◌, Option, none, some, if◌then◌else◌, ◌≡◌,
  arith, eq_iff, elem, elem-append, Bool-cases, inl, inr,
}
use bricktrace.Prelude.Dict.{Dict, lookup, insert, known, lookup-insert, known-insert}
use bricktrace.Validators.Url.{truthy}
use bricktrace.Validators.Escape.{text_of}
use bricktrace.RootCause.Tables.{add_sources}

-- The tables that the rows name.
unfoldable pub names : List (Option String) → List String
unfolding truthy text_of
names [] = []
names (t ∷ rows) = let rest = names rows in if truthy t then text_of t ∷ rest else rest

pub lookup-known : (s : String) (v : Dict ℕ) → lookup s v ≡ (if known v s then lookup s v else none)
unfolding known
lookup-known s v = ground arith

module _ (start : String) (hop : ℕ) where
  pub lookup-add_sources :
      (s : String) (rows : List (Option String)) (v : Dict ℕ) (nxt : List String)
      → lookup s (add_sources start hop rows v nxt).0 ≡ (
          if known v s
          then lookup s v
          else (if elem s (names rows) && not (s == start) then some hop else none))
  unfolding add_sources names elem
  lookup-add_sources s [] v nxt = lookup-known s v
  lookup-add_sources s (t ∷ rows) v nxt =
      let n = text_of t in
      elim (Bool-cases (truthy t && not (n == start) && not (known v n))) [
        | inl f ↦
            rw (f, add_sources)
              (ground (
                arith,
                lookup-add_sources s rows (insert n hop v) (nxt ++ n ∷ []),
                lookup-insert n s hop v,
                known-insert n s hop v,
                eq_iff s n,
              ))
        | inr f ↦ rw (f, add_sources) (ground (arith, lookup-add_sources s rows v nxt, eq_iff s n))
      ]

  pub elem-add_sources :
      (s : String) (rows : List (Option String)) (v : Dict ℕ) (nxt : List String)
      → elem s (add_sources start hop rows v nxt).1
        ≡ (elem s nxt || (elem s (names rows) && not (s == start) && not (known v s)))
  unfolding add_sources names elem
  elem-add_sources s [] v nxt = ground arith
  elem-add_sources s (t ∷ rows) v nxt =
      let n = text_of t in
      elim (Bool-cases (truthy t && not (n == start) && not (known v n))) [
        | inl f ↦
            rw (f, add_sources)
              (ground (
                arith,
                elem-add_sources s rows (insert n hop v) (nxt ++ n ∷ []),
                elem-append s nxt (n ∷ []),
                known-insert n s hop v,
                eq_iff s n,
              ))
        | inr f ↦ rw (f, add_sources) (ground (arith, elem-add_sources s rows v nxt, eq_iff s n))
      ]
