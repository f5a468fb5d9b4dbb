-- ===== src/Tests/Warehouse.antt =====
-- Tests and examples of Warehouse.
use bricktrace.Prelude.{
  ℕ, ◌+◌, ◌<◌, ◌≤◌, ◌≡◌, refl, ◌↔◌, List, [], ◌∷◌, none, some, length, arith, String, Char, Bool,
  eqb, code, leb,
}
use bricktrace.Prelude.Text.{◌⊕◌, has_pair}
use bricktrace.Warehouse.Breaker.{
  CircuitBreaker, closed, opened, half_open, service_unavailable, check, record_failure, init,
}
use bricktrace.Warehouse.Breaker.Laws.{
  Call, fails, call, run, fails_in_a_row, IsCoherent, run-init-IsCoherent, check-refuses_iff,
  opens_at_threshold,
}
use bricktrace.Warehouse.Gate
use bricktrace.Warehouse.Gate.{
  Gate, enter, exit, busy, returned, no_stats, acquire, shed_one, admit_one, reset_stats, uncount,
}
use bricktrace.Warehouse.Gate.Steps.{
  World, Reach, here, next, is_let_by, acquires, times_out, is_shed, is_counted, is_uncounted,
  resets, checking, held, start, IsBalanced, admission_bounded,
}
use bricktrace.Warehouse.Tag.{
  tag_statement, set_request_context, scrub_tag, hash_actor, replace_pair, replace_char, keep,
  lstrip, rstrip,
}
use bricktrace.Warehouse.Tag.Safe
use bricktrace.Warehouse.Tag.Safe.{
  executed, starred, tagged_statement_runs, dropped_character_ends_comment,
}

-- The breaker of the program: five failures, thirty seconds.
abbrev breaker : CircuitBreaker
breaker = record {
  failure_threshold = 5;
  recovery_timeout = 30;
  state = closed;
  failure_count = 0;
  last_failure_time = 0;
}

abbrev failures : List Call
failures = fails 1 ∷ fails 2 ∷ fails 3 ∷ fails 4 ∷ fails 5 ∷ []

abbrev tripped : CircuitBreaker
tripped = record breaker { state = opened; failure_count = 5; last_failure_time = 5 }

abbrev probing : CircuitBreaker
probing = record tripped { state = half_open }

trips : run failures breaker ≡ tripped
unfolding run call record_failure
trips = refl

refuses_then_probes :
    (check 34 tripped ≡ (tripped, some service_unavailable)) × (check 35 tripped ≡ (probing, none))
unfolding check
refuses_then_probes = (refl, refl)

-- A breaker that probes lets a second call through before the first has reported.
probes_twice : (check 35 probing ≡ (probing, none)) × (check 36 probing ≡ (probing, none))
unfolding check
probes_twice = (refl, refl)

run-init-IsCoherent_example : IsCoherent (run failures (init 5 30))
run-init-IsCoherent_example = run-init-IsCoherent 5 30 failures (omega arith)

check-refuses_iff_example :
    ((check 34 tripped).1 ≡ some service_unavailable) ↔ ((tripped.state ≡ opened) × (34 < 5 + 30))
check-refuses_iff_example = check-refuses_iff 34 tripped

abbrev two_times : List ℕ
two_times = 7 ∷ 8 ∷ []

opens_at_threshold_example :
    ((fails_in_a_row two_times (init 2 30)).state ≡ opened) ↔ (2 ≤ length two_times)
opens_at_threshold_example = opens_at_threshold 2 30 two_times (omega arith)

-- A gate of one slot.
abbrev gate : Gate
gate = record { max_concurrent = 1; free = 1; stats = no_stats; breaker = breaker }

second_is_shed :
    ((enter 2 3 (enter 1 0 gate).0).1 ≡ busy) × ((exit returned (enter 1 0 gate).0).free ≡ 1)
unfolding enter exit check
second_is_shed = (refl, refl)

abbrev two_checked : Gate
two_checked = checking 2 (checking 1 (start 1 breaker).gate)

abbrev one_leaving : World
one_leaving = record (start 1 breaker) {
  gate = uncount (reset_stats (shed_one (admit_one 0 (acquire two_checked))));
  uncounted = 1;
  forgotten = 1;
}

-- One thread holds the slot of the gate while another is shed, the counters are reset, and the first
-- one leaves, its place on the gauge before its permit.
interrupted : Reach (start 1 breaker) one_leaving
unfolding check acquire admit_one shed_one reset_stats Gate.init
interrupted =
    next
      (next
        (next
          (next
            (next
              (next (next (next here (is_let_by 1 refl)) (is_let_by 2 refl))
                (acquires (omega arith) (omega arith)))
              (is_counted 0 (omega arith)))
            (times_out (omega arith) refl))
          (is_shed (omega arith)))
        resets)
      (is_uncounted (omega arith))

admission_bounded_example : IsBalanced 1 one_leaving × (held one_leaving ≤ 1)
admission_bounded_example = admission_bounded 1 breaker interrupted

-- Printable characters are those from the space on, for the sake of the tests.
abbrev printable : Char → Bool
printable c = leb 32 (code c)

abbrev space : Char → Bool
space c = eqb (code c) 32

abbrev digest : String → String
digest s = "0a1b2c"

scrubbed : scrub_tag printable space "  /api/x*/ drop " ≡ "/api/x  drop"
unfolding scrub_tag replace_pair replace_char keep lstrip rstrip
scrubbed = refl

tagged_statement_runs_example :
    executed
      (tag_statement (set_request_context printable space digest "/api/x*/" "a@b") "SELECT 1")
    ≡ some ("\n" ⊕ "SELECT 1")
unfolding has_pair Safe.all_chars Safe.plain
tagged_statement_runs_example =
    tagged_statement_runs printable space digest "/api/x*/" "a@b" "SELECT 1" refl refl (λ e. cc)
      refl

dropped_character_ends_comment_example :
    executed (
      tag_statement (set_request_context printable space digest (starred "\u{1}") "a@b") "SELECT 1")
    ≡ some (" actor=" ⊕ hash_actor printable space digest "a@b" ⊕ " */\n" ⊕ "SELECT 1")
unfolding hash_actor
dropped_character_ends_comment_example =
    dropped_character_ends_comment printable space digest "\u{1}" "a@b" "SELECT 1" refl
      (refl, refl, refl, refl, refl) (refl, refl) (refl, refl) (λ e. cc)
