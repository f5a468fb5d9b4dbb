-- ===== src/Warehouse/Gate/Alone.antt =====
-- Entries and exits of one thread that runs alone at backend/warehouse_gate.py.
use bricktrace.Prelude.{
  eqb, Bool-cases, Option-cases, inl, inr, refl, List, [], ◌∷◌, length, ◌↔◌, ◌≢◌, ℕ, ◌+◌, ◌<◌, ◌≡◌,
  none, arith,
}
use bricktrace.Prelude.Int.{negsuc, decr_parts, decr-incr, pos_part, neg_part}
use bricktrace.Warehouse.Breaker.{CircuitBreaker, check, record_success, record_failure}
use bricktrace.Warehouse.Gate.Steps.{
  World, Reach, here, next, is_let_by, is_refused, acquires, times_out, is_shed, is_counted,
  is_uncounted, releases, reports,
}
use bricktrace.Warehouse.Gate.{
  Gate, reset_stats, entered, busy, enter, Outcome, returned, raised_busy, raised, exit,
}

-- What a body's outcome means to the breaker.
abbrev pub outcome_seen : Outcome → CircuitBreaker → CircuitBreaker
outcome_seen returned b = record_success b
outcome_seen raised_busy b = b
outcome_seen (raised now) b = record_failure now b

-- An entry is shed exactly when the breaker lets it pass and no permit is free.
pub enter_cases :
    (now waited : ℕ) (g : Gate)
    → ((enter now waited g).1 ≡ busy) ↔ (((check now g.breaker).1 ≡ none) × (g.free ≡ 0))
unfolding enter
enter_cases now waited g = ground arith

-- An entry that is shed or refused takes no permit, leaves the gauge as it was, and the breaker
-- has seen its check and nothing else: being shed is no failure of the warehouse.
pub shed_keeps :
    (now waited : ℕ) (g : Gate)
    → (enter now waited g).1 ≢ entered
    → ((enter now waited g).0.free ≡ g.free)
      × ((enter now waited g).0.stats.in_flight ≡ g.stats.in_flight)
      × ((enter now waited g).0.breaker ≡ (check now g.breaker).0)
unfolding enter
shed_keeps now waited g h = (ground arith, ground arith, ground arith)

-- A statement that enters and leaves gives its permit and its place on the gauge back, and the
-- breaker sees exactly its outcome: `WarehouseBusyError` in the body is not counted as a failure.
pub leave_after_enter :
    (now waited : ℕ) (o : Outcome) (g : Gate)
    → (enter now waited g).1 ≡ entered
    → ((exit o (enter now waited g).0).free ≡ g.free)
      × ((exit o (enter now waited g).0).stats.in_flight ≡ g.stats.in_flight)
      × ((exit o (enter now waited g).0).breaker ≡ outcome_seen o (check now g.breaker).0)
unfolding enter exit
leave_after_enter now waited o g h =
    (ground arith, ground (arith, decr-incr g.stats.in_flight), ground arith)

pub exits : List Outcome → Gate → Gate
exits [] g = g
exits (o ∷ os) g = exits os (exit o g)

in_flight-exits :
    (os : List Outcome) (g : Gate)
    → pos_part (exits os g).stats.in_flight + neg_part g.stats.in_flight + length os
      ≡ neg_part (exits os g).stats.in_flight + pos_part g.stats.in_flight
unfolding exits exit
in_flight-exits [] g = omega arith
in_flight-exits (o ∷ os) g =
    omega (arith, in_flight-exits os (exit o g), decr_parts g.stats.in_flight)

-- After a reset of the counters the exits of `k` statements that held their slots before it take
-- the gauge to `-k`, for every positive `k`.
pub reset_drives_gauge_negative :
    (o : Outcome) (os : List Outcome) (g : Gate)
    → (exits (o ∷ os) (reset_stats g)).stats.in_flight ≡ negsuc (length os)
unfolding reset_stats
reset_drives_gauge_negative o os g = ground (arith, in_flight-exits (o ∷ os) (reset_stats g))

-- An entry that no other thread interrupts is one of the runs that Steps allows.
pub enter_is_run :
    (now waited : ℕ) (w : World) → (u : World) × Reach w u × (u.gate ≡ (enter now waited w.gate).0)
unfolding enter
enter_is_run now waited w = elim (Option-cases (check now w.gate.breaker).1) [
  | inl e ↦ elim (Bool-cases (eqb w.gate.free 0)) [
    | inl z ↦ (
      _,
      next (next (next here (is_let_by now e)) (times_out (omega arith) (ground arith)))
          (is_shed (omega arith)),
      ground arith,
    )
    | inr z ↦ (
      _,
      next (next (next here (is_let_by now e)) (acquires (omega arith) (ground arith)))
          (is_counted waited (omega arith)),
      ground arith,
    )
  ]
  | inr (f, e) ↦ (_, next here (is_refused now f e), ground arith)
]

-- So is an exit of a counted thread that no other interrupts.
pub exit_is_run :
    (o : Outcome) (w : World) → 0 < w.counted → (u : World) × Reach w u × (u.gate ≡ exit o w.gate)
unfolding exit
exit_is_run o w h = (
  _,
  next (next (next here (is_uncounted h)) (releases (omega arith))) (reports o (omega arith)),
  refl,
)
