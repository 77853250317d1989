-- ===== src/Agent/Periodic.antt =====
-- internal/agent/agent.go: what the loops of Run do at each tick, and the callback that New sets.
use ping_mesh.Prelude.{
  String, ℤ, pos, List, [], ◌∷◌, Option, none, some, Result, ok, err, ◌==◌, if◌then◌else◌,
}
use ping_mesh.Model.{Config, CoordinatorConfig, role_coordinator, Heartbeat, ConfigSync, Monitor}
use ping_mesh.World.{Env, Act, pure, ◌>>=◌, ◌>>◌, now}
use ping_mesh.Store.{list_enabled_monitors}
use ping_mesh.Checker.{Sprintf}
use ping_mesh.Cluster.{update_heartbeat, detect_offline_nodes}
use ping_mesh.Cluster.PeerClient.{PeerHttp}
use ping_mesh.Cluster.PeerClient
use ping_mesh.Scheduler.{Scheduler, active_count}
use ping_mesh.Scheduler
use ping_mesh.Agent.Sync.{apply_config_sync}

abbrev pub address_of : Option CoordinatorConfig → Option String
address_of none = none
address_of (some c) = some c.address

-- Where results and heartbeats are sent: nowhere from the coordinator.
unfoldable pub coordinator_address : Config → Option String
coordinator_address config =
    if config.role == role_coordinator then none else address_of config.coordinator

abbrev pub heartbeat_of : Config → Scheduler → String → Heartbeat
heartbeat_of config scheduler stamp = record {
  node_id = config.node_id;
  timestamp = stamp;
  active_monitors = pos (active_count scheduler);
  checks_per_minute = pos 0;
}

-- Every 90 seconds without a heartbeat; 30 s is the period of the heartbeats.
abbrev pub offline_timeout_ms : ℤ
offline_timeout_ms = pos 90000

module _ (env : Env) (config : Config) where
  -- `stamp` is time.Format(time.RFC3339).
  unfoldable pub heartbeat_to :
      (ℤ → String) → Scheduler → Option String → Act (List (String × Heartbeat))
  heartbeat_to stamp scheduler none = pure []
  heartbeat_to stamp scheduler (some address) = do
    time ← now env
    pure ((address, heartbeat_of config scheduler (stamp time)) ∷ [])

  -- An update that fails is logged.
  unfoldable pub send_heartbeat : (ℤ → String) → Scheduler → Act (List (String × Heartbeat))
  unfolding heartbeat_to coordinator_address
  send_heartbeat stamp scheduler =
      update_heartbeat env config.node_id
      >> heartbeat_to stamp scheduler (coordinator_address config)

  unfoldable pub detect_offline : Act (Result (Unit {0}))
  detect_offline = detect_offline_nodes env offline_timeout_ms

  unfoldable pub apply_pulled : Result ConfigSync → Act (Unit {0})
  apply_pulled (err e) = pure tt
  apply_pulled (ok sync) = apply_config_sync env sync

  unfoldable pub pull_from : Sprintf → PeerHttp → Option CoordinatorConfig → Act (Unit {0})
  unfolding apply_pulled
  pull_from sprintf net none = pure tt
  pull_from sprintf net (some c) = apply_pulled (PeerClient.pull_config_sync sprintf net c.address)

  -- configPullLoop returns where there is no coordinator.
  unfoldable pub pull_config_sync : Sprintf → PeerHttp → Act (Unit {0})
  unfolding pull_from
  pull_config_sync sprintf net = pull_from sprintf net config.coordinator

  unfoldable pub sync_listed : Scheduler → Result (List Monitor) → Act Scheduler
  sync_listed scheduler (err e) = pure scheduler
  sync_listed scheduler (ok monitors) = pure (Scheduler.sync_monitors monitors scheduler)

  unfoldable pub sync_monitors : Scheduler → Act Scheduler
  unfolding sync_listed
  sync_monitors scheduler = list_enabled_monitors env >>= sync_listed scheduler
