-- ===== src/Tests/Reports.antt =====
-- The history with a limit of one, and peers that refuse the dial.
use ping_mesh.Prelude.{
  ◌≡◌, refl, ℤ, pos, List, map, none, some, true, false, err, message, ◌==◌, keep_if, if◌then◌else◌,
  pos_part, IsPage,
}
use ping_mesh.Model.{PeerStatus}
use ping_mesh.Db.{ResultRow, scan_result}
use ping_mesh.World.{result_le}
use ping_mesh.Api.{Query, Numbers, Dialer, handle_history, handle_test_peer}
use ping_mesh.Api.Reply.{json, status_ok}
use ping_mesh.Api.History.{IsLimit, IsSince, IsAsked, handle_history-IsPage}
use ping_mesh.Api.Probing.{DescribesAll, wanted, handle_test_peer_lem}
use ping_mesh.Tests.Setup.{quiet_env, down_world, coordinator}
use ping_mesh.Tests.Checks.{sprintf}

abbrev numbers : Numbers
numbers = record { atoi = λ s. if s == "1" then some (pos 1) else none; parse_int = λ s. pos 0 }

abbrev first_result : Query
first_result name = if name == "limit" then "1" else ""

handle_history-IsPage_example :
    (limit : ℤ) × IsLimit (numbers.atoi (first_result "limit")) (first_result "limit") limit
    × (since : ℤ) × IsSince numbers (first_result "since") since
    × (rows : List ResultRow) × ((handle_history quiet_env numbers first_result down_world).0
        ≡ json status_ok (map scan_result rows))
    × IsPage result_le
        (IsAsked (first_result "monitor") (first_result "node") since)
        (pos_part limit)
        down_world.db.check_results
        rows
handle_history-IsPage_example = handle_history-IsPage quiet_env numbers first_result down_world refl

abbrev dial : Dialer
dial k address = err (message "connection refused")

abbrev all_peers : Query
all_peers name = ""

handle_test_peer_lem_example :
    (quiet_env.faults 0 ≡ false
      → (ps : List PeerStatus) × ((handle_test_peer sprintf quiet_env coordinator dial all_peers
            down_world).0
          ≡ json status_ok (some ps))
        × DescribesAll dial
            (keep_if (wanted coordinator "") (quiet_env.nodes_by_age.sort down_world.db.nodes))
            ps)
    × (quiet_env.faults 0 ≡ true
        → (handle_test_peer sprintf quiet_env coordinator dial all_peers down_world).0
          ≡ json status_ok none)
handle_test_peer_lem_example =
    handle_test_peer_lem sprintf quiet_env coordinator dial all_peers down_world
