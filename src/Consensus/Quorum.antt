-- ===== src/Consensus/Quorum.antt =====
-- internal/consensus/evaluator.go. The counts are lengths of lists of nodes, so they are not negative.
use ping_mesh.Prelude.{ℕ, ◌/◌, ℤ, pos, leb_ℤ, ltb, Bool, String, ◌==◌, if◌then◌else◌}

unfoldable pub evaluate_quorum : String → ℤ → ℕ → ℕ → Bool
evaluate_quorum quorum_type quorum_n fail_count total_count =
    if quorum_type == "majority"
    then ltb (total_count / 2) fail_count
    else if quorum_type == "n_of_m"
    then leb_ℤ quorum_n (pos fail_count)
    else ltb (total_count / 2) fail_count
