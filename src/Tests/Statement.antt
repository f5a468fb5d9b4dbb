-- ===== src/Tests/Statement.antt =====
-- Tests and examples of Lineage.Statement.
use bricktrace.Prelude.{ℕ, ◌+◌, ◌*◌, ◌≢◌, ◌≡◌, refl, [], Option, none, some, arith}
use bricktrace.Warehouse.Breaker
use bricktrace.Warehouse.Gate
use bricktrace.Warehouse.Gate.{Gate}
use bricktrace.Lineage.Statement.{
  Response, running, failed, poll, timed_out, finished, in_progress, still_polling, execute_sql,
}
use bricktrace.Lineage.Statement.Ends.{execute_sql_ends}

abbrev still_running : Response
still_running = record { state = running; error_message = none; columns = []; data_array = [] }

-- The warehouse answers `running` forever; the clock reads three seconds more each time.
abbrev forever : ℕ → Option Response
forever k = some still_running

abbrev clock : ℕ → ℕ
clock k = 100 + 3 * k

stops : poll forever clock 10 12 0 still_running ≡ timed_out
unfolding poll in_progress
stops = refl

finishes :
    poll (λ k. some (record still_running { state = failed })) clock 10 12 0 still_running
    ≡ finished (record still_running { state = failed })
unfolding poll in_progress
finishes = refl

abbrev gate : Gate
gate = Gate.init 2 (Breaker.init 5 30)

execute_sql_ends_example :
    let r = execute_sql forever clock 10 (some "w1") 100 0 140 (some still_running) gate in
    (r.1 ≢ still_polling) × (r.0.free ≡ gate.free) × (r.0.stats.in_flight ≡ gate.stats.in_flight)
execute_sql_ends_example =
    execute_sql_ends forever clock 10 (omega arith) (λ k. omega arith) (some "w1") 100 0 140
      (some still_running) gate
