-- ===== src/Cluster/Manager.antt =====
-- internal/cluster/cluster.go.
use ping_mesh.Prelude.{
  ℤ, ltb_ℤ, sub_64, Bool, ◌&&◌, String, List, [], ◌∷◌, Result, ok, ◌==◌, if◌then◌else◌, keep_if,
}
use ping_mesh.Model.{Node, node_online, node_offline}
use ping_mesh.World.{Env, Act, pure, or_return, ◌>>=◌, ◌>>◌, now}
use ping_mesh.Store.{list_nodes, update_node_status}

abbrev pub is_online : Node → Bool
is_online n = n.status == node_online

-- Not seen since the cutoff, and still thought online.
abbrev pub is_overdue : ℤ → Node → Bool
is_overdue cutoff n = ltb_ℤ n.last_seen cutoff && is_online n

module _ (env : Env) where
  unfoldable pub get_online_nodes : Act (Result (List Node))
  get_online_nodes = do
    nodes ← list_nodes env
    or_return (λ ns. pure (ok (keep_if is_online ns))) nodes

  unfoldable pub update_heartbeat : String → Act (Result (Unit {0}))
  update_heartbeat node_id = do time ← now env; update_node_status env node_id node_online time

  unfoldable pub mark_offline : Node → Act (Result (Unit {0}))
  mark_offline n = update_node_status env n.id node_offline n.last_seen

  -- The loop over the nodes: an update that fails is logged, and the loop goes on.
  unfoldable pub mark_overdue : ℤ → List Node → Act (Unit {0})
  unfolding mark_offline
  mark_overdue cutoff [] = pure tt
  mark_overdue cutoff (n ∷ ns) =
      let rest = mark_overdue cutoff ns in
      if is_overdue cutoff n then mark_offline n >> rest else rest

  unfoldable pub detect_offline_nodes : ℤ → Act (Result (Unit {0}))
  unfolding mark_overdue
  detect_offline_nodes timeout_ms = do
    nodes ← list_nodes env
    or_return (λ ns. do time ← now env; mark_overdue (sub_64 time timeout_ms) ns; pure (ok tt))
        nodes
