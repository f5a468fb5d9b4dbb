-- ===== src/RootCause/Tables/Suspect.antt =====
-- The prime suspect of the trace by health, and its counts.
use mathlib.Core.List.{Memᴰ}
use mathlib.Core.List.Memᴰ
use mathlib.Core.Logic.{⊎_elim}
use bricktrace.Prelude.{
  ℕ, ◌+◌, ◌&&◌, not, true, false, String, List, [], ◌∷◌, some, length, ◌≡◌, refl, ap, sym, ◌∙◌,
  arith, Bool-cases, inl, inr,
}
use bricktrace.Prelude.Dict.{Dict}
use bricktrace.Prelude.Sort.{sort_by, sorted_by, before_all, sorted_by-sort_by, length-sort_by}
use bricktrace.RootCause.Tables.{
  Status, failed, stale, healthy, no_history, Health, Flagged, Counts, count_status, flags_before,
  is_bad, suspects_of, first_of, flag_all, counts_of, trace_root_cause_table,
}

flags_before_total : (f g : Flagged) → flags_before f g ≡ false → flags_before g f ≡ true
unfolding flags_before
flags_before_total f g h = ground arith

flags_before_trans :
    (f g k : Flagged) → flags_before f g ≡ true → flags_before g k ≡ true → flags_before f k ≡ true
unfolding flags_before
flags_before_trans f g k h j = ground arith

-- A table upstream of the focus whose producers failed or went stale.
abbrev pub IsSuspect : Flagged → Type 0
IsSuspect f = (is_bad f.status ≡ true) × (f.is_focus ≡ false)

before_all_mem :
    (f g : Flagged) (fs : List Flagged)
    → before_all flags_before f fs ≡ true
    → Memᴰ g fs
    → flags_before f g ≡ true
unfolding before_all
before_all_mem f g [] b m = absurd (Memᴰ.not-nil m)
before_all_mem f g (k ∷ fs) b m =
    ⊎_elim (λ q. ap (flags_before f) q ∙ ground arith) (λ t. before_all_mem f g fs (ground arith) t)
      (Memᴰ.cases_cons m)

flags_before_self : (f : Flagged) → flags_before f f ≡ true
unfolding flags_before
flags_before_self f = ground arith

-- In a sorted list the first suspect stands before every other.
first_suspect :
    (fs all : List Flagged) (f : Flagged)
    → sorted_by flags_before fs ≡ true
    → Memᴰ f fs
    → IsSuspect f
    → (p : Flagged) × (first_of (suspects_of fs) all ≡ some p)
      × Memᴰ p fs
      × (is_bad p.status ≡ true)
      × (p.is_focus ≡ false)
      × (flags_before p f ≡ true)
unfolding suspects_of first_of sorted_by
first_suspect [] all f s m h = absurd (Memᴰ.not-nil m)
first_suspect (g ∷ fs) all f s m h = elim (Bool-cases (is_bad g.status && not g.is_focus)) [
  | inl e ↦ (
    g,
    rw e refl,
    Memᴰ.head refl,
    ground arith,
    ground arith,
    ⊎_elim (λ q. ap (flags_before g) q ∙ flags_before_self g) (before_all_mem g f fs (ground arith))
        (Memᴰ.cases_cons m),
  )
  | inr e ↦
      let other : Memᴰ f fs =
        ⊎_elim
          (λ q.
            let bad : is_bad g.status ≡ true = ap (λ k. is_bad k.status) (sym q) ∙ h.0 in
            let away : g.is_focus ≡ false = ap (λ k. k.is_focus) (sym q) ∙ h.1 in
            absurd (ground (arith, bad, away, e)))
          (λ t. t) (Memᴰ.cases_cons m) in
      let (p, first, n, bad, upstream, le) = first_suspect fs all f (ground arith) other h in
      (p, rw e first, Memᴰ.tail n, bad, upstream, le)
]

-- The four counts together.
abbrev pub total_count : Counts → ℕ
total_count c = c.failed_count + c.stale_count + c.healthy_count + c.no_history_count

count_one : (s : Status) (c : Counts) → total_count (count_status s c) ≡ total_count c + 1
unfolding count_status
count_one failed c = omega arith
count_one stale c = omega arith
count_one healthy c = omega arith
count_one no_history c = omega arith

module _ (focus : String) (healths : String → List Health) where
  count_all :
      (fs : List Flagged) (c : Counts)
      → total_count (counts_of focus healths fs c) ≡ total_count c + length fs
  unfolding counts_of
  count_all [] c = omega arith
  count_all (f ∷ fs) c = omega (arith, count_one f.status c, count_all fs (count_status f.status c))

  -- Where some table upstream of the focus is flagged failed or stale, the prime suspect is such a table
  -- too, and none of them stands before it: its status is the worst, and it is the closest of those with
  -- that status.
  pub prime_suspect_is_worst :
      (upstream : Dict ℕ) (f : Flagged)
      → Memᴰ f (trace_root_cause_table focus healths upstream).flagged
      → is_bad f.status ≡ true
      → f.is_focus ≡ false
      → (p : Flagged) × ((trace_root_cause_table focus healths upstream).prime_suspect ≡ some p)
        × Memᴰ p (trace_root_cause_table focus healths upstream).flagged
        × (is_bad p.status ≡ true)
        × (p.is_focus ≡ false)
        × (flags_before p f ≡ true)
  unfolding trace_root_cause_table
  prime_suspect_is_worst upstream f m bad away =
      let found = flag_all focus healths ((focus, 0) ∷ upstream) in
      let flagged = sort_by flags_before found in
      first_suspect flagged flagged f
        (sorted_by-sort_by flags_before flags_before_total flags_before_trans found) m (bad, away)

  -- The counts together are the number of the flagged tables, in the order worst status first and
  -- then fewest hops.
  pub trace_root_cause_table-counts :
      (upstream : Dict ℕ)
      → let t = trace_root_cause_table focus healths upstream in
        (total_count t.counts ≡ length t.flagged) × (sorted_by flags_before t.flagged ≡ true)
  unfolding trace_root_cause_table
  trace_root_cause_table-counts upstream =
      let found = flag_all focus healths ((focus, 0) ∷ upstream) in
      let zeros : Counts = record {
        failed_count = 0;
        stale_count = 0;
        healthy_count = 0;
        no_history_count = 0;
      } in
      (
        omega (arith, count_all found zeros, length-sort_by flags_before found),
        sorted_by-sort_by flags_before flags_before_total flags_before_trans found,
      )
