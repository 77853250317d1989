-- ===== src/Tests/Storage.antt =====
-- What the theorems on the store and on joining say of the example.
use ping_mesh.Prelude.{
  map, sub_64, ◌≡◌, ◌≢◌, refl, true, false, List, [], ◌∷◌, some, none, ok, ◌==◌, if◌then◌else◌, pos,
}
use mathlib.Core.Option
use ping_mesh.Model.{ConfigSync, Monitor}
use ping_mesh.Db.{
  IsUnique, node_key, IsConsistent, has, monitor_row, result_row, incident_row, scan_result,
  scan_result-result_row,
}
use ping_mesh.World.{World, exec, now, new_uuid, settle}
use ping_mesh.Store.{
  create_node, insert_node, create_monitor, update_monitor, get_monitor, insert_monitor,
  set_monitor, get_active_incident, validate_and_consume_token, consume_token, is_redeemable,
  redeem, newest_active, is_active_for, is_active,
}
use ping_mesh.Store.Calls.{Call, run, run-IsConsistent}
use ping_mesh.Store.SingleUse.{validate_once}
use ping_mesh.Store.Active.{IsAnswer, get_active_incident_lem}
use ping_mesh.Store.RoundTrip.{get-create_monitor, get-update_monitor, stored_monitor}
use ping_mesh.Cluster.Offline.{checked, detect_offline_nodes_lem}
use ping_mesh.Agent.{apply_config_sync}
use ping_mesh.Agent.Merge.{received, apply_config_sync-received}
use ping_mesh.Cluster.{detect_offline_nodes, validate_join_token}
use ping_mesh.Api.{handle_peer_join, join_with, admit, register}
use ping_mesh.Api.Joining.{Succeeds, join_once}
use ping_mesh.Tests.Setup.{
  two_nodes, quiet_env, site, down, down_world, down_db, codecs, platform, coordinator, request,
}
use ping_mesh.Tests.Decisions.{down_db-IsConsistent}

abbrev history : List Call
history = Call.store_join_token "other" (pos 9000) ∷ Call.delete_node "n2" ∷ []

run-IsConsistent_example : IsConsistent (run quiet_env history down_world).db
run-IsConsistent_example = run-IsConsistent quiet_env history down_world down_db-IsConsistent

redeemed : World
redeemed = (validate_and_consume_token quiet_env "hash" down_world).1

is_redeemed : validate_and_consume_token quiet_env "hash" down_world ≡ (ok true, redeemed)
unfolding validate_and_consume_token consume_token is_redeemable redeem exec now settle redeemed
is_redeemed = refl

validate_once_example :
    (validate_and_consume_token quiet_env "hash" (run quiet_env history redeemed)).0 ≢ ok true
validate_once_example =
    validate_once quiet_env "hash" down_world redeemed history down_db-IsConsistent is_redeemed

let_in :
    Succeeds
      (handle_peer_join quiet_env codecs platform coordinator "10.0.0.9:80"
        (ok request)
        down_world).0
unfolding handle_peer_join join_with admit register validate_join_token validate_and_consume_token
    consume_token is_redeemable redeem exec now settle has create_node insert_node new_uuid
let_in = tt

join_once_example :
    let after =
      (handle_peer_join quiet_env codecs platform coordinator "10.0.0.9:80"
        (ok request)
        down_world).1 in
    ¬ Succeeds
      (handle_peer_join quiet_env codecs platform coordinator "10.0.0.8:80"
        (ok request)
        (run quiet_env history after)).0
join_once_example =
    join_once quiet_env codecs platform coordinator "10.0.0.9:80" "10.0.0.8:80" request request
      history down_world down_db-IsConsistent refl let_in

nothing_active : (get_active_incident quiet_env "m1" down_world).0 ≡ ok none
unfolding get_active_incident newest_active is_active_for is_active exec settle incident_row
nothing_active = refl

get_active_incident_lem_example : IsAnswer "m1" down_db none
get_active_incident_lem_example =
    get_active_incident_lem quiet_env "m1" down_world none nothing_active

abbrev other_site : Monitor
other_site = record site { id = "m2"; target = "example.org" }

after_creation : World
after_creation = (create_monitor quiet_env other_site down_world).1

is_created : create_monitor quiet_env other_site down_world ≡ (ok tt, after_creation)
unfolding create_monitor insert_monitor exec settle has monitor_row after_creation
is_created = refl

quiet_after_creation : quiet_env.faults after_creation.statements ≡ false
quiet_after_creation = refl

get-create_monitor_example :
    (get_monitor quiet_env "m2" after_creation).0
    ≡ ok (if other_site.id == "m2" then some other_site else stored_monitor "m2" down_db)
get-create_monitor_example =
    get-create_monitor quiet_env other_site "m2" down_world after_creation is_created
      quiet_after_creation

abbrev moved_site : Monitor
moved_site = record site { target = "example.net"; created_at = pos 0 }

after_update : World
after_update = (update_monitor quiet_env moved_site down_world).1

is_updated : update_monitor quiet_env moved_site down_world ≡ (ok tt, after_update)
unfolding update_monitor set_monitor exec settle after_update
is_updated = refl

get-update_monitor_example :
    (get_monitor quiet_env "m1" after_update).0
    ≡ ok (
        if moved_site.id == "m1"
        then Option.map
            (λ old. record moved_site { id = old.id; created_at = old.created_at })
            (stored_monitor "m1" down_db)
        else stored_monitor "m1" down_db)
get-update_monitor_example =
    get-update_monitor quiet_env moved_site "m1" down_world after_update is_updated refl

no_details : (down "n1").details ≢ some ""
no_details e = cc

scan_result-result_row_example :
    scan_result (result_row 7 (down "n1")) ≡ record (down "n1") { id = 7 }
scan_result-result_row_example = scan_result-result_row 7 (down "n1") no_details

two_nodes-IsUnique : IsUnique node_key two_nodes
unfolding has
two_nodes-IsUnique = (refl, (refl, tt))

detect_offline_nodes_lem_example :
    (detect_offline_nodes quiet_env (pos 50) down_world).1.db.nodes
    ≡ map (checked (sub_64 (pos 5000) (pos 50))) two_nodes
detect_offline_nodes_lem_example =
    detect_offline_nodes_lem quiet_env (λ k. refl) (pos 50) down_world two_nodes-IsUnique

abbrev config : ConfigSync
config = record { version = pos 1; monitors = moved_site ∷ other_site ∷ []; nodes = two_nodes }

apply_config_sync-received_example :
    stored_monitor "m1" (apply_config_sync quiet_env config down_world).1.db
    ≡ received "m1" (moved_site ∷ other_site ∷ []) (stored_monitor "m1" down_db)
apply_config_sync-received_example =
    apply_config_sync-received quiet_env (λ k. refl) config "m1" down_world
