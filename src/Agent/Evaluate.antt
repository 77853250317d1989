-- ===== src/Agent/Evaluate.antt =====
-- internal/agent/agent.go: evaluateConsensus and evaluateMonitorConsensus. A failed statement is
-- logged, and the function returns or goes on with the next node, as the code does.
use ping_mesh.Prelude.{
  ℕ, suc, pos, leb_ℤ, String, List, [], ◌∷◌, ◌++◌, Option, none, some, Result, ok, err, ◌==◌,
  if◌then◌else◌, length, nat_eq,
}
use ping_mesh.Model.{Node, Monitor, Incident, incident_suspect}
use ping_mesh.World.{Env, Act, pure, ◌>>=◌, ◌>>◌}
use ping_mesh.Store.{
  list_enabled_monitors, count_consecutive_failures, count_consecutive_successes,
  get_active_incident,
}
use ping_mesh.Consensus.{
  evaluate_quorum, get_or_create_incident, confirm_incident, resolve_incident,
}
use ping_mesh.Cluster.{get_online_nodes}
use ping_mesh.Alert.{send_alert, send_recovery}

-- `failCount` and `failingNodeIDs` after one more node.
unfoldable pub add_failing : Monitor → Node → Result ℕ → ℕ × List String → ℕ × List String
add_failing m n (err e) acc = acc
add_failing m n (ok failures) (count, ids) =
    if leb_ℤ m.failure_threshold (pos failures) then (suc count, ids ++ n.id ∷ []) else (count, ids)

-- `recoveryCount` after one more node.
unfoldable pub add_recovered : Monitor → Result ℕ → ℕ → ℕ
add_recovered m (err e) count = count
add_recovered m (ok successes) count =
    if leb_ℤ m.recovery_threshold (pos successes) then suc count else count

-- A nil slice that ids have been appended to.
abbrev pub slice_of : List String → Option (List String)
slice_of [] = none
slice_of (id ∷ ids) = some (id ∷ ids)

module _ (env : Env) where
  unfoldable pub count_failing : Monitor → List Node → ℕ × List String → Act (ℕ × List String)
  count_failing m [] acc = pure acc
  count_failing m (n ∷ ns) acc = do
    failures ← count_consecutive_failures env m.id n.id
    count_failing m ns (add_failing m n failures acc)

  unfoldable pub count_recovered : Monitor → List Node → ℕ → Act ℕ
  count_recovered m [] count = pure count
  count_recovered m (n ∷ ns) count = do
    successes ← count_consecutive_successes env m.id n.id
    count_recovered m ns (add_recovered m successes count)

  -- `if err != nil { return }`, then the notification
  unfoldable pub after_confirming : Monitor → Incident × Result (Unit {0}) → Act (Unit {0})
  after_confirming m (incident, ok _) = send_alert env incident m
  after_confirming m (incident, err e) = pure tt

  unfoldable pub after_resolving : Monitor → Incident × Result (Unit {0}) → Act (Unit {0})
  after_resolving m (incident, ok _) = send_recovery env incident m
  after_resolving m (incident, err e) = pure tt

  unfoldable pub confirm_if_suspect : Monitor → List String → Result Incident → Act (Unit {0})
  confirm_if_suspect m ids (err e) = pure tt
  confirm_if_suspect m ids (ok incident) =
      if incident.status == incident_suspect
      then (confirm_incident env incident (slice_of ids) >>= after_confirming m)
      else pure tt

  -- The branch where enough nodes see a failure.
  unfoldable pub raise_incident : Monitor → List String → Act (Unit {0})
  raise_incident m ids = get_or_create_incident env m.id >>= confirm_if_suspect m ids

  unfoldable pub resolve_if_quorum : Monitor → ℕ → Incident → ℕ → Act (Unit {0})
  resolve_if_quorum m total incident recovered =
      if evaluate_quorum m.quorum_type m.quorum_n recovered total
      then (resolve_incident env incident >>= after_resolving m)
      else pure tt

  unfoldable pub resolve_if_recovered : Monitor → List Node → ℕ → Incident → Act (Unit {0})
  resolve_if_recovered m nodes total incident =
      count_recovered m nodes 0 >>= resolve_if_quorum m total incident

  unfoldable pub resolve_active :
      Monitor → List Node → ℕ → Result (Option Incident) → Act (Unit {0})
  resolve_active m nodes total (ok (some incident)) = resolve_if_recovered m nodes total incident
  resolve_active m nodes total (ok none) = pure tt
  resolve_active m nodes total (err e) = pure tt

  -- The branch where they do not.
  unfoldable pub check_recovery : Monitor → List Node → ℕ → Act (Unit {0})
  check_recovery m nodes total = get_active_incident env m.id >>= resolve_active m nodes total

  -- The two branches after the count.
  unfoldable pub judge : Monitor → List Node → ℕ → ℕ × List String → Act (Unit {0})
  judge m nodes total (fail_count, failing) =
      if evaluate_quorum m.quorum_type m.quorum_n fail_count total
      then raise_incident m failing
      else check_recovery m nodes total

  unfoldable pub evaluate_monitor_consensus : Monitor → List Node → ℕ → Act (Unit {0})
  evaluate_monitor_consensus m nodes total = count_failing m nodes (0, []) >>= judge m nodes total

  unfoldable pub evaluate_each : List Node → ℕ → List Monitor → Act (Unit {0})
  evaluate_each nodes total [] = pure tt
  evaluate_each nodes total (m ∷ ms) =
      evaluate_monitor_consensus m nodes total >> evaluate_each nodes total ms

  unfoldable pub evaluate_all : List Monitor → Result (List Node) → Act (Unit {0})
  evaluate_all monitors (err e) = pure tt
  evaluate_all monitors (ok nodes) =
      if nat_eq (length nodes) 0 then pure tt else evaluate_each nodes (length nodes) monitors

  unfoldable pub evaluate_listed : Result (List Monitor) → Act (Unit {0})
  evaluate_listed (ok ms) = get_online_nodes env >>= evaluate_all ms
  evaluate_listed (err e) = pure tt

  unfoldable pub evaluate_consensus : Act (Unit {0})
  evaluate_consensus = list_enabled_monitors env >>= evaluate_listed
