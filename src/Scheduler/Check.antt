-- ===== src/Scheduler/Check.antt =====
-- internal/agent/scheduler.go: what executeCheck does between its guard and its deferred function.
-- The network is given for each attempt; `error_text` is Error() of an error.
use ping_mesh.Prelude.{
  ℕ, suc, zero, ℤ, pos, ltb_ℤ, pos_part, String, Bool, false, List, [], ◌∷◌, Option, none, some,
  Result, ok, err, Error, ◌==◌, if◌then◌else◌,
}
use ping_mesh.Model.{Monitor, CheckResult, status_up}
use ping_mesh.World.{Env, World, Act, pure, ◌>>=◌, ◌>>◌, now}
use ping_mesh.Store.{get_monitor, insert_check_result}
use ping_mesh.Scheduler.Table.{Loop, Scheduler}
use ping_mesh.Scheduler.Loops.{is_running, begin_check, finish_check}
use ping_mesh.Checker.{CheckOutcome, down_outcome, Checker, Network, check, get, register_all}

-- lastResult and lastErr.
pub record Attempt : Type 0 where
  pub last_result : Option CheckOutcome
  pub last_error : Option Error

abbrev pub untried : Attempt
untried = record { last_result = none; last_error = none }

unfoldable pub attempts_of : Monitor → ℕ
attempts_of m = if ltb_ℤ m.retries (pos 1) then 1 else pos_part m.retries

abbrev pub attempt_of : Result CheckOutcome → Attempt
attempt_of (ok o) = record { last_result = some o; last_error = none }
attempt_of (err e) = record { last_result = none; last_error = some e }

abbrev pub is_up_outcome : Result CheckOutcome → Bool
is_up_outcome (ok o) = o.status == status_up
is_up_outcome (err e) = false

-- The loop: the rounds left, the number of the attempt, and the last attempt; with the number of
-- attempts that were made.
unfoldable pub attempt : (ℕ → Result CheckOutcome) → ℕ → ℕ → Attempt → Attempt × ℕ
attempt probe zero i last = (last, i)
attempt probe (suc n) i last =
    let rest = attempt probe n (suc i) (attempt_of (probe i)) in
    if is_up_outcome (probe i) then (attempt_of (probe i), suc i) else rest

module _ (error_text : Error → String) where
  abbrev pub failure_text : Option Error → String
  failure_text none = "all attempts failed"
  failure_text (some e) = error_text e

  abbrev pub outcome_of : Attempt → CheckOutcome
  outcome_of a = elim a.last_result [
    | none ↦ down_outcome 0 (pos 0) (failure_text a.last_error)
    | some o ↦ o
  ]

  unfoldable pub measure : (ℕ → Network) → Checker → Monitor → CheckOutcome
  unfolding attempt attempts_of
  measure nets c m = outcome_of (attempt (λ i. check (nets i) c m) (attempts_of m) 0 untried).0

  abbrev pub result_of : String → String → CheckOutcome → ℤ → CheckResult
  result_of node_id monitor_id o time = record {
    id = 0;
    monitor_id = monitor_id;
    node_id = node_id;
    status = o.status;
    latency_us = o.latency_us;
    status_code = o.status_code;
    error = o.error;
    details = none;
    timestamp = time;
  }

  -- What the callback pushes: nothing, or the result to the coordinator's address.
  unfoldable pub pushed : Option String → CheckResult → List (String × CheckResult)
  pushed none r = []
  pushed (some address) r = (address, r) ∷ []

  module _ (env : Env) (coordinator : Option String) where
    -- An insert that fails is logged.
    unfoldable pub report : CheckResult → Act (List (String × CheckResult))
    unfolding pushed
    report r = insert_check_result env r >> pure (pushed coordinator r)

    unfoldable pub check_with :
        String
        → String
        → (ℕ → Network)
        → Monitor
        → Result Checker
        → Act (List (String × CheckResult))
    unfolding report measure
    check_with node_id id nets m (err e) = pure []
    check_with node_id id nets m (ok c) = do
      time ← now env
      report (result_of node_id id (measure nets c m) time)

    unfoldable pub check_found :
        String
        → String
        → (ℕ → Network)
        → Result (Option Monitor)
        → Act (List (String × CheckResult))
    unfolding check_with
    check_found node_id id nets (err e) = pure []
    check_found node_id id nets (ok none) = pure []
    check_found node_id id nets (ok (some m)) =
        check_with node_id id nets m (get m.check_type (register_all []))

    unfoldable pub run_check : String → (ℕ → Network) → String → Act (List (String × CheckResult))
    unfolding check_found
    run_check node_id nets id = get_monitor env id >>= check_found node_id id nets

    -- executeCheck, where nothing comes between its parts.
    unfoldable pub execute_check :
        String → (ℕ → Network) → Loop → Scheduler × World → Scheduler × World
    unfolding run_check
    execute_check node_id nets l (s, w) =
        if is_running l.monitor_id s
        then (begin_check l s, w)
        else (finish_check l (begin_check l s), (run_check node_id nets l.monitor_id w).1)
