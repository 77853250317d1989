-- ===== src/System/Travel.antt =====
-- A result from the node that measures it to the coordinator: internal/agent/scheduler.go and
-- internal/api/peer_handlers.go.
use ping_mesh.Prelude.{
  ◌≡◌, ◌⊎◌, inl, inr, refl, ℕ, suc, String, true, false, Bool-cases, Elem, [], ◌∷◌, none, some, ok,
  message, Error,
}
use ping_mesh.Model.{Monitor, CheckResult}
use ping_mesh.Db.{has, node_key, monitor_key}
use ping_mesh.World.{Env, World, exec}
use ping_mesh.Store.{insert_check_result, insert_result}
use ping_mesh.Checker.{Network}
use ping_mesh.Checker.Verdicts.Types.{check_types}
use ping_mesh.Scheduler.{pushed, run_check}
use ping_mesh.Scheduler.Stored.{monitor_of, IsAdded, append-IsAdded, IsMeasured, run_check-IsAdded}
use ping_mesh.Api.{handle_peer_result}
use ping_mesh.Api.Reply.{json, failure, status_ok, internal_error}

-- The coordinator takes a result of a monitor and a node that it stores, and refuses any other.
abbrev pub IsTakenIn : Env → CheckResult → World → Type 0
IsTakenIn env r v =
    ((has monitor_key r.monitor_id v.db.monitors ≡ true)
      × (has node_key r.node_id v.db.nodes ≡ true)
      × ((handle_peer_result env (ok r) v).0 ≡ json status_ok (record { status = "ok" }))
      × IsAdded r v.db (handle_peer_result env (ok r) v).1.db)
    ⊎ (((has monitor_key r.monitor_id v.db.monitors ≡ false)
          ⊎ (has node_key r.node_id v.db.nodes ≡ false))
        × ((handle_peer_result env (ok r) v).0
            ≡ failure internal_error (message "storing result failed"))
        × ((handle_peer_result env (ok r) v).1.db ≡ v.db))

taken_in :
    (env : Env) (r : CheckResult) (v : World)
    → env.faults v.statements ≡ false
    → r.details ≡ none
    → IsTakenIn env r v
unfolding handle_peer_result insert_check_result exec insert_result
taken_in env r v fine plain = elim (Bool-cases (has monitor_key r.monitor_id v.db.monitors)) [
  | inl m ↦ elim (Bool-cases (has node_key r.node_id v.db.nodes)) [
    | inl n ↦ inl (m, n, rw (fine, m, n) refl, rw (fine, m, n) (append-IsAdded r v.db plain))
    | inr n ↦ inr (inr n, rw (fine, m, n) refl, rw (fine, m, n) refl)
  ]
  | inr m ↦ inr (inl m, rw (fine, m) refl, rw (fine, m) refl)
]

-- Where the two statements of the check and the one of the coordinator do not fail, the node
-- stores the monitor and itself, and the type of the monitor is one of the six: the check makes
-- one result, under the ids of the monitor and of the node and at the time that the clock shows,
-- which says what the first attempt that is up, or the last that the retries allow, gave by a
-- checker of that type: its outcome, or down with the text of its error. This result is added to
-- those of the node, as it is read back, and pushed to the address of the coordinator alone. The
-- coordinator, handling it, adds the same result to its own and answers with success where it
-- stores the monitor and the node, and else answers with an internal error and changes nothing.
pub result_travels :
    (error_text : Error → String) (env env' : Env) (address node_id id : String)
    (nets : ℕ → Network) (w v : World) (m : Monitor)
    → env.faults w.statements ≡ false
    → env.faults (suc w.statements) ≡ false
    → env'.faults v.statements ≡ false
    → monitor_of id w.db ≡ some m
    → Elem m.check_type check_types
    → has node_key node_id w.db.nodes ≡ true
    → (r : CheckResult) × IsMeasured error_text env (some address) node_id id nets w r
      × IsAdded r w.db (run_check error_text env (some address) node_id nets id w).1.db
      × ((run_check error_text env (some address) node_id nets id w).0 ≡ (address, r) ∷ [])
      × IsTakenIn env' r v
unfolding pushed
result_travels error_text env env' address node_id id nets w v m fine fine' fine'' known checked
      node =
    let (r, measured, added, sent) =
      run_check-IsAdded error_text env (some address) node_id id nets w m fine fine' known checked
        node in
    (r, measured, added, sent, taken_in env' r v fine'' measured.plain)
