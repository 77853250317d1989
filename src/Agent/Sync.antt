-- ===== src/Agent/Sync.antt =====
-- internal/agent/agent.go: pushConfigSync and applyConfigSync. What is sent goes into a list of
-- messages; whether the network delivers it does not change what follows.
use ping_mesh.Prelude.{
  Bool, not, ◌||◌, String, List, [], ◌∷◌, map, Option, none, some, Result, ok, err, ◌==◌, keep_if,
}
use ping_mesh.Model.{Node, Monitor, ConfigSync, node_online}
use ping_mesh.World.{Env, Act, pure, ◌>>=◌, ◌>>◌, now}
use ping_mesh.Store.{
  list_monitors, list_nodes, get_monitor, update_monitor, create_monitor, get_node, update_node,
  create_node,
}

-- Neither this node nor one that is not online.
unfoldable pub is_push_target : String → Node → Bool
is_push_target self n = not ((n.id == self) || not (n.status == node_online))

module _ (env : Env) where
  -- One message for each target, with its address.
  unfoldable pub push_to :
      String → Result (List Monitor) → Result (List Node) → Act (List (String × ConfigSync))
  push_to self (err e) nodes = pure []
  push_to self (ok monitors) (err e) = pure []
  push_to self (ok monitors) (ok nodes) = do
    time ← now env
    let sync : ConfigSync = record { version = time; monitors = monitors; nodes = nodes }
    pure (map (λ n. (n.address, sync)) (keep_if (is_push_target self) nodes))

  -- ListNodes runs only if ListMonitors did not fail.
  unfoldable pub push_listed : String → Result (List Monitor) → Act (List (String × ConfigSync))
  unfolding push_to
  push_listed self (err e) = pure []
  push_listed self (ok monitors) = list_nodes env >>= push_to self (ok monitors)

  unfoldable pub push_config_sync : String → Act (List (String × ConfigSync))
  unfolding push_listed
  push_config_sync self = list_monitors env "" >>= push_listed self

  -- The body of the loop over the monitors; an error is logged.
  unfoldable pub merge_monitor : Monitor → Result (Option Monitor) → Act (Result (Unit {0}))
  merge_monitor m (err e) = pure (err e)
  merge_monitor m (ok (some existing)) = update_monitor env m
  merge_monitor m (ok none) = create_monitor env m

  unfoldable pub merge_node : Node → Result (Option Node) → Act (Result (Unit {0}))
  merge_node n (err e) = pure (err e)
  merge_node n (ok (some existing)) = update_node env n
  merge_node n (ok none) = create_node env n

  unfoldable pub merge_monitors : List Monitor → Act (Unit {0})
  unfolding merge_monitor
  merge_monitors [] = pure tt
  merge_monitors (m ∷ ms) = (get_monitor env m.id >>= merge_monitor m) >> merge_monitors ms

  unfoldable pub merge_nodes : List Node → Act (Unit {0})
  unfolding merge_node
  merge_nodes [] = pure tt
  merge_nodes (n ∷ ns) = (get_node env n.id >>= merge_node n) >> merge_nodes ns

  unfoldable pub apply_config_sync : ConfigSync → Act (Unit {0})
  unfolding merge_monitors merge_nodes
  apply_config_sync sync = merge_monitors sync.monitors >> merge_nodes sync.nodes
