-- ===== src/Tests/Nodes.antt =====
-- What the theorems on a whole node say of an example.
use ping_mesh.Prelude.{
  ◌≡◌, refl, pos, true, false, inl, inr, List, [], ◌∷◌, some, none, ok, err, engine_fault,
}
use mathlib.Core.Option
use ping_mesh.Model.{CheckResult}
use ping_mesh.Db.{
  has, monitor_key, node_key, find, monitor_row, scan_monitor, int_or_zero, string_or_empty,
  bool_to_int, null_int, null_string,
}
use ping_mesh.Scheduler.{new_scheduler, run_check}
use ping_mesh.Api.{handle_create_monitor}
use ping_mesh.Consensus.Sound.{IsOrderly}
use ping_mesh.Consensus.Lifecycle.{Evolves}
use ping_mesh.System
use ping_mesh.System.{Setup, Event, history_of, answer}
use ping_mesh.System.Orderly.{history_keeps}
use ping_mesh.System.Failures.{accepted, refused_request}
use ping_mesh.System.Travel.{IsTakenIn, result_travels}
use ping_mesh.Scheduler.Stored.{IsMeasured, IsAdded}
use ping_mesh.Tests.Setup.{
  quiet_env, site, down, down_db, down_world, codecs, platform, coordinator, request,
}
use ping_mesh.Tests.Decisions.{down_db-IsOrderly}
use ping_mesh.Tests.Checks.{sprintf, network, error_text}

abbrev setup : Setup
setup = record {
  env = quiet_env;
  config = coordinator;
  codecs = codecs;
  platform = platform;
  is_json = λ s. true;
  numbers = record { atoi = λ s. none; parse_int = λ s. pos 0 };
  sprintf = sprintf;
  error_text = error_text;
  stamp = λ t. "now";
}

-- A heartbeat, a check, a result of another node, a join, and then the consensus.
abbrev events : List Event
events =
    System.ticked (System.heartbeats new_scheduler)
    ∷ System.checked (λ i. network) "m1"
    ∷ System.requested (System.peer_result (ok (down "n2")))
    ∷ System.requested (System.peer_join "10.0.0.9:80" (ok request))
    ∷ System.ticked System.consensus
    ∷ []

history_keeps_example :
    IsOrderly (history_of setup events down_world).db
    × Evolves down_db.incidents (history_of setup events down_world).db.incidents
history_keeps_example = history_keeps setup events down_world down_db-IsOrderly

malformed : accepted setup (System.create_monitor (err engine_fault)) down_world ≡ false
unfolding accepted handle_create_monitor
malformed = refl

refused_request_example :
    (answer setup (System.create_monitor (err engine_fault)) down_world).db ≡ down_db
refused_request_example =
    refused_request setup (System.create_monitor (err engine_fault)) down_world tt malformed

site_known : Option.map scan_monitor (find monitor_key "m1" down_db.monitors) ≡ some site
unfolding find monitor_row scan_monitor int_or_zero string_or_empty bool_to_int null_int null_string
site_known = refl

node_known : has node_key "n2" down_db.nodes ≡ true
unfolding has
node_known = refl

result_travels_example :
    (r : CheckResult) × IsMeasured error_text quiet_env
      (some "10.0.0.1:7433")
      "n2"
      "m1"
      (λ i. network)
      down_world
      r
    × IsAdded r down_db
        (run_check error_text quiet_env
          (some "10.0.0.1:7433")
          "n2"
          (λ i. network)
          "m1"
          down_world).1.db
    × ((run_check error_text quiet_env (some "10.0.0.1:7433") "n2" (λ i. network) "m1" down_world).0
        ≡ ("10.0.0.1:7433", r) ∷ [])
    × IsTakenIn quiet_env r down_world
result_travels_example =
    result_travels error_text quiet_env quiet_env "10.0.0.1:7433" "n2" "m1" (λ i. network)
      down_world down_world site refl refl refl site_known (inr (inr (inl refl))) node_known
