-- ===== src/Tests/Decisions.antt =====
-- What the theorems on the coordinator say of the example.
use ping_mesh.Prelude.{
  pos, ◌≡◌, ◌≢◌, refl, true, false, [], some, arith, eq_iff, length, get_elem?, map, ◌↔◌, ◌<◌, ◌*◌,
}
use ping_mesh.Model.{Monitor, incident_resolved}
use ping_mesh.Db.{Db, IsConsistent, has, incident_row, monitor_row, result_row}
use ping_mesh.Store.{is_active, is_active_for, count_while, recent_results, results_of}
use ping_mesh.Consensus.{evaluate_quorum}
use ping_mesh.Consensus.Lifecycle.{Evolves}
use ping_mesh.Consensus.Sound.{IsOrderly}
use ping_mesh.Consensus.Votes.{majority_iff}
use ping_mesh.Agent.{evaluate_monitor_consensus, evaluate_consensus, count_failing, count_recovered}
use ping_mesh.Agent.Announce.{Outcome}
use ping_mesh.Agent.Announce.Once.{evaluate_monitor_consensus-Outcome}
use ping_mesh.Agent.Effects.Evolution.{evaluate_consensus_keeps, resolved_stays}
use ping_mesh.Agent.Decisions.{
  majority_decides, count_failing_lem, failing_nodes, threshold_out_of_reach,
}
use ping_mesh.Agent.Outage.{IsDown, IsReady, outage_confirmed, false_alarm}
use ping_mesh.Tests.Setup.{quiet_env, site, world_of, down_world, down_db, two_nodes, old_incident}

-- A hundred failures are not enough.
abbrev slow_site : Monitor
slow_site = record site { failure_threshold = pos 200 }

pub down_db-IsConsistent : IsConsistent down_db
unfolding has incident_row monitor_row result_row
down_db-IsConsistent = record {
  nodes_unique = (refl, (refl, tt));
  monitors_unique = (refl, tt);
  incidents_unique = (refl, tt);
  tokens_unique = (refl, tt);
  channels_unique = (refl, tt);
  results_known = ((refl, refl, omega arith), ((refl, refl, omega arith), tt));
  incidents_known = (refl, tt);
  history_known = tt;
}

pub down_db-IsOrderly : IsOrderly down_db
unfolding incident_row is_active_for is_active
down_db-IsOrderly = record { consistent = down_db-IsConsistent; one_active = λ m. ground arith }

evaluate_monitor_consensus-Outcome_example :
    Outcome quiet_env site [] (evaluate_monitor_consensus quiet_env site two_nodes 2 down_world).1
evaluate_monitor_consensus-Outcome_example =
    evaluate_monitor_consensus-Outcome quiet_env site two_nodes 2 down_world

evaluate_consensus_keeps_example :
    IsOrderly (evaluate_consensus quiet_env down_world).1.db
    × Evolves down_db.incidents (evaluate_consensus quiet_env down_world).1.db.incidents
evaluate_consensus_keeps_example = evaluate_consensus_keeps quiet_env down_world down_db-IsOrderly

old_is_resolved : (incident_row old_incident).status ≡ incident_resolved
unfolding incident_row
old_is_resolved = refl

resolved_stays_example :
    get_elem? (evaluate_consensus quiet_env down_world).1.db.incidents 0
    ≡ some (incident_row old_incident)
resolved_stays_example =
    resolved_stays quiet_env down_world [] (incident_row old_incident) [] down_db-IsOrderly refl
      old_is_resolved

down_db-IsReady : IsReady quiet_env "m1" down_db
unfolding has incident_row monitor_row
down_db-IsReady = record { known = refl; fresh = λ k. refl }

both_failing :
    evaluate_quorum site.quorum_type site.quorum_n
      (length (failing_nodes quiet_env site down_db two_nodes))
      2
    ≡ true
unfolding evaluate_quorum count_while recent_results results_of result_row
both_failing = refl

healthy_db-IsReady : IsReady quiet_env "m1" (record down_db { check_results = [] })
unfolding has incident_row monitor_row
healthy_db-IsReady = record { known = refl; fresh = λ k. refl }

outage_confirmed_example :
    IsDown "m1" (evaluate_monitor_consensus quiet_env site two_nodes 2 down_world).1.db
outage_confirmed_example =
    outage_confirmed quiet_env (λ k. refl) site two_nodes 2 down_world down_db-IsReady both_failing

count_failing_lem_example : (count_failing quiet_env site two_nodes (0, []) down_world).0 ≡ (
  length (failing_nodes quiet_env site down_db two_nodes),
  map (λ n. n.id) (failing_nodes quiet_env site down_db two_nodes),
)
count_failing_lem_example = count_failing_lem quiet_env site two_nodes down_world (λ k. refl)

failing_is_quorum :
    evaluate_quorum site.quorum_type site.quorum_n
      (count_failing quiet_env site two_nodes (0, []) down_world).0.0
      2
    ≡ true
failing_is_quorum = rw (count_failing_lem_example) both_failing

site_is_majority : site.quorum_type ≢ "n_of_m"
site_is_majority e = ground (arith, eq_iff site.quorum_type "n_of_m")

majority_decides_example :
    evaluate_quorum site.quorum_type site.quorum_n
      (count_recovered quiet_env site two_nodes 0 down_world).0
      2
    ≡ false
majority_decides_example =
    majority_decides quiet_env site two_nodes down_world down_world site_is_majority refl
      (omega arith) (omega arith) failing_is_quorum

threshold_out_of_reach_example :
    (count_failing quiet_env slow_site two_nodes (0, []) down_world).0 ≡ (0, [])
threshold_out_of_reach_example =
    threshold_out_of_reach quiet_env slow_site two_nodes (0, []) down_world (omega arith)

majority_iff_example : (evaluate_quorum "majority" (pos 0) 2 3 ≡ true) ↔ (3 < 2 * 2)
majority_iff_example = majority_iff "majority" (pos 0) 2 3 site_is_majority

abbrev unset_site : Monitor
unset_site = record site { quorum_type = "n_of_m" }

abbrev healthy_db : Db
healthy_db = record down_db { check_results = [] }

false_alarm_example :
    IsDown "m1"
      (evaluate_monitor_consensus quiet_env unset_site two_nodes 2 (world_of healthy_db)).1.db
false_alarm_example =
    false_alarm quiet_env (λ k. refl) unset_site two_nodes 2 (world_of healthy_db)
      healthy_db-IsReady refl (omega arith)
