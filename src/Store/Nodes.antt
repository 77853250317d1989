-- ===== src/Store/Nodes.antt =====
-- internal/store/sqlite.go: node operations.
use ping_mesh.Prelude.{
  String, ℤ, ◌&&◌, List, [], ◌∷◌, ◌++◌, Option, ◌==◌, if◌then◌else◌, any, Result, ok, err,
  unique_violation, foreign_key_violation,
}
use ping_mesh.Model.{Node}
use ping_mesh.Db.{Db, find, has, update, delete, node_key}
use ping_mesh.World.{Env, Act, exec, select, write}

unfoldable pub insert_node : Node → Db → Result Db
insert_node n db =
    if has node_key n.id db.nodes
    then err unique_violation
    else ok (record db { nodes = db.nodes ++ n ∷ [] })

unfoldable pub set_node : Node → Db → Result Db
set_node n db = ok (record db {
  nodes =
      update node_key n.id
        (λ r. record r {
          name = n.name;
          location = n.location;
          address = n.address;
          role = n.role;
          status = n.status;
          last_seen = n.last_seen;
        })
        db.nodes;
})

unfoldable pub set_node_status : String → String → ℤ → Db → Result Db
set_node_status id status last_seen db = ok (record db {
  nodes = update node_key id (λ r. record r { status = status; last_seen = last_seen }) db.nodes;
})

unfoldable pub remove_node : String → Db → Result Db
remove_node id db =
    if has node_key id db.nodes && any (λ r. r.node_id == id) db.check_results
    then err foreign_key_violation
    else ok (record db { nodes = delete node_key id db.nodes })

module _ (env : Env) where
  unfoldable pub create_node : Node → Act (Result (Unit {0}))
  create_node n = exec env (λ db. write (insert_node n db))

  unfoldable pub get_node : String → Act (Result (Option Node))
  get_node id = exec env (select (λ db. find node_key id db.nodes))

  unfoldable pub list_nodes : Act (Result (List Node))
  list_nodes = exec env (select (λ db. env.nodes_by_age.sort db.nodes))

  unfoldable pub update_node : Node → Act (Result (Unit {0}))
  update_node n = exec env (λ db. write (set_node n db))

  unfoldable pub delete_node : String → Act (Result (Unit {0}))
  delete_node id = exec env (λ db. write (remove_node id db))

  unfoldable pub update_node_status : String → String → ℤ → Act (Result (Unit {0}))
  update_node_status id status last_seen =
      exec env (λ db. write (set_node_status id status last_seen db))
