-- ===== src/RootCause/Rank/Laws.antt =====
-- The ranking: it ends, its order, its cap, and where its candidates lie.
use mathlib.Core.List.{Memᴰ}
use mathlib.Core.List.Memᴰ
use mathlib.Core.Logic.{⊎_elim}
use bricktrace.Prelude.{
  ℕ, zero, suc, ◌≤◌, Bool, true, false, String, List, [], ◌∷◌, Option, some, elem, take, length,
  length-take-le, ◌≡◌, refl, ap, arith, Bool-cases, inl, inr,
}
use bricktrace.Prelude.Text.{◌⊕◌}
use bricktrace.Prelude.Dict.{Dict}
use bricktrace.Prelude.Sort.{sorted_by, mem-sort_by, sorted_by-sort_by, sorted_by-take}
use bricktrace.RootCause.Columns.{UpstreamColumn, SourceRow}
use bricktrace.RootCause.Columns.Ends.{IsLimited, IsUpstream, walk_upstream_columns_ends}
use bricktrace.RootCause.Evidence.{Evidence}
use bricktrace.RootCause.Rank.{
  Candidate, Trace, DqWeight, column_key, ranks_before, dq_evidence, candidate, candidates_of,
  ranked, trace_of, trace_root_cause,
}

ranks_before_total : (c d : Candidate) → ranks_before c d ≡ false → ranks_before d c ≡ true
unfolding ranks_before
ranks_before_total c d h = ground arith

ranks_before_trans :
    (c d e : Candidate)
    → ranks_before c d ≡ true
    → ranks_before d e ≡ true
    → ranks_before c e ≡ true
unfolding ranks_before
ranks_before_trans c d e h k = ground arith

mem-take {ℓ} : {A : Type ℓ} (x : A) (n : ℕ) (xs : List A) → Memᴰ x (take n xs) → Memᴰ x xs
mem-take x zero xs m = absurd (Memᴰ.not-nil m)
mem-take x (suc n) [] m = m
mem-take x (suc n) (y ∷ ys) m =
    ⊎_elim Memᴰ.head (λ t. Memᴰ.tail (mem-take x n ys t)) (Memᴰ.cases_cons m)

-- Each candidate is a column upstream of the start, at that number of hops within the limit.
abbrev pub AllUpstream :
    (String → String → Option (List SourceRow)) → String → String → ℕ → List Candidate → Type 0
AllUpstream query full_name column max_hops cs =
    (c : Candidate)
    → Memᴰ c cs
    → IsUpstream query full_name column c.table c.column c.hop × (1 ≤ c.hop) × (c.hop ≤ max_hops)

module _ (failed_runs : String → List Evidence) (dq_violations : String → String → List Evidence)
    (rounded : ℕ → Bool → DqWeight → ℕ) where
  mem-candidates_of :
      (dq : Dict (List Evidence)) (seen : List String) (us : List UpstreamColumn) (c : Candidate)
      → Memᴰ c (candidates_of failed_runs dq_violations rounded dq seen us)
      → (u : UpstreamColumn) × Memᴰ u us × (c ≡ candidate failed_runs dq_violations rounded dq u)
  unfolding candidates_of
  mem-candidates_of dq seen [] c m = absurd (Memᴰ.not-nil m)
  mem-candidates_of dq seen (u ∷ us) c m =
      elim (Bool-cases (elem (column_key u.table u.column) seen)) [
        | inl e ↦ let (v, n, q) = mem-candidates_of dq seen us c (rw e at m) in (v, Memᴰ.tail n, q)
        | inr e ↦
            ⊎_elim (λ q. (u, Memᴰ.head refl, q))
              (λ t.
                let (v, n, q) = mem-candidates_of dq (column_key u.table u.column ∷ seen) us c t in
                (v, Memᴰ.tail n, q))
              (Memᴰ.cases_cons (rw e at m))
      ]

  mem-ranked :
      (us : List UpstreamColumn) (c : Candidate)
      → Memᴰ c (ranked failed_runs dq_violations rounded us)
      → (u : UpstreamColumn) × Memᴰ u us
        × (c.table ≡ u.table)
        × (c.column ≡ u.column)
        × (c.hop ≡ u.hop)
  unfolding ranked candidate
  mem-ranked us c m =
      let dq = dq_evidence failed_runs dq_violations rounded us [] in
      let all = candidates_of failed_runs dq_violations rounded dq [] us in
      let (u, n, q) =
        mem-candidates_of dq [] us c ((mem-sort_by ranks_before c all).0 (mem-take c 20 _ m)) in
      (u, n, ap (λ d. d.table) q, ap (λ d. d.column) q, ap (λ d. d.hop) q)

  ranked-sorted :
      (us : List UpstreamColumn)
      → sorted_by ranks_before (ranked failed_runs dq_violations rounded us) ≡ true
  unfolding ranked
  ranked-sorted us = sorted_by-take ranks_before 20 _ (
      sorted_by-sort_by ranks_before ranks_before_total ranks_before_trans (
        candidates_of failed_runs dq_violations rounded
          (dq_evidence failed_runs dq_violations rounded us []) [] us))

  ranked-length :
      (us : List UpstreamColumn) → length (ranked failed_runs dq_violations rounded us) ≤ 20
  unfolding ranked
  ranked-length us = length-take-le 20 _

  trace_of_lem :
      (query : String → String → Option (List SourceRow)) (full_name column : String)
      (anomaly : Option String) (max_hops : ℕ) (us : List UpstreamColumn)
      → ((u : UpstreamColumn)
          → Memᴰ u us
          → IsUpstream query full_name column u.table u.column u.hop
            × (1 ≤ u.hop)
            × (u.hop ≤ max_hops))
      → let t = trace_of failed_runs dq_violations rounded full_name column anomaly us in
        (sorted_by ranks_before t.candidates ≡ true)
        × (length t.candidates ≤ 20)
        × AllUpstream query full_name column max_hops t.candidates
  unfolding trace_of sorted_by
  trace_of_lem query full_name column anomaly max_hops [] h =
      (refl, omega arith, λ c m. absurd (Memᴰ.not-nil m))
  trace_of_lem query full_name column anomaly max_hops (u ∷ us) h = (
    ranked-sorted (u ∷ us),
    ranked-length (u ∷ us),
    λ c m.
        let (v, n, t, k, p) = mem-ranked (u ∷ us) c m in
        let (up, low, high) = h v n in
        (rw (t, k, p) up, omega (arith, p, low), omega (arith, p, high)),
  )

  -- Where no query returns more than 30 rows, the trace comes to an answer: at most 20 candidates, each
  -- a column upstream of the target at its number of hops, from 1 to the limit, in the order of the
  -- ranking: higher scores first, and fewer hops among equal scores.
  pub trace_root_cause-ranked :
      (query : String → String → Option (List SourceRow)) (catalog schema table column : String)
      (anomaly : Option String) (max_hops : ℕ)
      → ((t c : String) → IsLimited (query t c))
      → (trace : Trace) × (trace_root_cause failed_runs dq_violations rounded query catalog schema
            table column anomaly max_hops
          ≡ some trace)
        × (sorted_by ranks_before trace.candidates ≡ true)
        × (length trace.candidates ≤ 20)
        × AllUpstream query (catalog ⊕ "." ⊕ schema ⊕ "." ⊕ table) column max_hops trace.candidates
  unfolding trace_root_cause
  trace_root_cause-ranked query catalog schema table column anomaly max_hops limit =
      let full_name = catalog ⊕ "." ⊕ schema ⊕ "." ⊕ table in
      let (path, e, sound) = walk_upstream_columns_ends query max_hops full_name column limit in
      let (sorted, few, upstream) =
        trace_of_lem query full_name column anomaly max_hops path sound in
      (
        trace_of failed_runs dq_violations rounded full_name column anomaly path,
        rw e refl,
        sorted,
        few,
        upstream,
      )
