-- ===== src/Lineage/Statement/Ends.antt =====
-- A statement comes to an end, whatever the warehouse answers, and gives its slot back.
use bricktrace.Prelude.{
  ℕ, zero, suc, ◌+◌, ◌≤◌, ◌<◌, Bool, true, false, String, Option, none, some, if◌then◌else◌, ltb,
  ◌≡◌, ◌≢◌, refl, arith, Bool-cases, inl, inr,
}
use bricktrace.Validators.Url.{truthy}
use bricktrace.Warehouse.Gate.{Gate, Entry, entered, unavailable, busy, enter}
use bricktrace.Warehouse.Gate.Alone.{leave_after_enter, shed_keeps}
use bricktrace.Lineage.Statement.{
  Response, StatementState, pending, running, succeeded, failed, canceled, closed, in_progress,
  Polled, finished, timed_out, call_raised, polling, SqlResult, still_polling, result_of,
  result_of_polled, outcome_of, poll, body, behind_gate, execute_sql,
}

-- The loop has not run out of rounds.
unfoldable ended : Polled → Bool
ended (finished r) = true
ended timed_out = true
ended call_raised = true
ended polling = false

if_ended :
    (t : Bool) (a b : Polled) → ended a ≡ true → ended b ≡ true → ended (if t then a else b) ≡ true
if_ended true a b h k = h
if_ended false a b h k = k

result_of_state : (r : Response) (s : StatementState) → r.state ≡ s → result_of r ≢ still_polling
unfolding result_of
result_of_state r pending e = rw e (λ q. cc q)
result_of_state r running e = rw e (λ q. cc q)
result_of_state r succeeded e = rw e (λ q. cc q)
result_of_state r failed e = rw e (λ q. cc q)
result_of_state r canceled e = rw e (λ q. cc q)
result_of_state r closed e = rw e (λ q. cc q)

result_of_ended : (p : Polled) → ended p ≡ true → result_of_polled p ≢ still_polling
unfolding ended result_of_polled
result_of_ended (finished r) h = result_of_state r r.state refl
result_of_ended timed_out h = λ q. cc q
result_of_ended call_raised h = λ q. cc q
result_of_ended polling h = cc h

module _ (get_statement : ℕ → Option Response) (clock : ℕ → ℕ) (sql_poll_max_s : ℕ) where
  module _ (starts : clock 0 ≤ clock 1)
      (sleeps : (k : ℕ) → clock (suc k) + 1 ≤ clock (suc (suc k))) where
    clock_after : (k : ℕ) → clock 0 + k ≤ clock (suc k)
    clock_after zero = omega (arith, starts)
    clock_after (suc k) = omega (arith, clock_after k, sleeps k)

    answered_ends :
        (rounds k : ℕ) (a : Option Response)
        → ((r : Response) → ended (poll get_statement clock sql_poll_max_s rounds (suc k) r) ≡ true)
        → ended (elim a [
          | none ↦ call_raised
          | some r ↦ poll get_statement clock sql_poll_max_s rounds (suc k) r
        ])
          ≡ true
    unfolding ended
    answered_ends rounds k none h = refl
    answered_ends rounds k (some r) h = h r

    poll_ends :
        (rounds k : ℕ) (resp : Response)
        → sql_poll_max_s + 2 ≤ rounds + k
        → 0 < rounds
        → ended (poll get_statement clock sql_poll_max_s rounds k resp) ≡ true
    unfolding poll ended
    poll_ends zero k resp h p = absurd (omega arith)
    poll_ends (suc rounds) k resp h p =
        elim (Bool-cases (ltb (clock 0 + sql_poll_max_s) (clock (suc k)))) [
          | inl late ↦
              rw late (if_ended (in_progress resp.state) timed_out (finished resp) refl refl)
          | inr early ↦
              let before : k ≤ sql_poll_max_s = ground (arith, clock_after k) in
              let later =
                answered_ends rounds k (get_statement k)
                  (λ r. poll_ends rounds (suc k) r (omega (arith, h)) (omega (arith, h, before))) in
              rw early (if_ended (in_progress resp.state) _ (finished resp) later refl)
        ]

    body_ends :
        (answer : Option Response) → ended (body get_statement clock sql_poll_max_s answer) ≡ true
    unfolding body ended
    body_ends none = refl
    body_ends (some resp) = poll_ends (suc (suc sql_poll_max_s)) 0 resp (omega arith) (omega arith)

    abbrev Released : Gate → Gate × SqlResult → Type 0
    Released g r =
        (r.1 ≢ still_polling) × (r.0.free ≡ g.free) × (r.0.stats.in_flight ≡ g.stats.in_flight)

    behind_gate_ends :
        (now waited left_at : ℕ) (answer : Option Response) (g : Gate) (e : Entry)
        → (enter now waited g).1 ≡ e
        → Released g
            (behind_gate get_statement clock sql_poll_max_s left_at answer (enter now waited g).0 e)
    unfolding behind_gate
    behind_gate_ends now waited left_at answer g entered h =
        let (free, flying, breaker) =
          leave_after_enter now waited
            (outcome_of left_at (body get_statement clock sql_poll_max_s answer)) g h in
        (result_of_ended _ (body_ends answer), free, flying)
    behind_gate_ends now waited left_at answer g unavailable h =
        let (free, flying, breaker) = shed_keeps now waited g (λ q. cc (q, h)) in
        (λ q. cc q, free, flying)
    behind_gate_ends now waited left_at answer g busy h =
        let (free, flying, breaker) = shed_keeps now waited g (λ q. cc (q, h)) in
        (λ q. cc q, free, flying)

    -- Where the clock does not run backwards and every wait between two questions takes at least a second,
    -- a statement comes to an end within two rounds more than the seconds of its budget, whatever the
    -- warehouse answers (also where it reports the statement as pending forever), and behind every end
    -- the gate has as many free slots and statements in flight as before.
    pub execute_sql_ends :
        (warehouse_id : Option String) (now waited left_at : ℕ) (answer : Option Response)
        (g : Gate)
        → let r =
            execute_sql get_statement clock sql_poll_max_s warehouse_id now waited left_at answer
              g in
          (r.1 ≢ still_polling) × (r.0.free ≡ g.free) × (r.0.stats.in_flight ≡ g.stats.in_flight)
    unfolding execute_sql
    execute_sql_ends warehouse_id now waited left_at answer g =
        elim (Bool-cases (truthy warehouse_id)) [
          | inl e ↦ rw e (behind_gate_ends now waited left_at answer g (enter now waited g).1 refl)
          | inr e ↦ rw e ((λ q. cc q), refl, refl)
        ]
