-- ===== src/Store/Results.antt =====
-- internal/store/sqlite.go: check results, and the counts of consecutive failures and successes.
use ping_mesh.Prelude.{
  ℕ, suc, String, ℤ, pos, ltb_ℤ, leb_ℤ, pos_part, Bool, true, not, ◌&&◌, List, [], ◌∷◌, ◌++◌, map,
  Option, ◌==◌, if◌then◌else◌, keep_if, take, head?, Result, ok, err, foreign_key_violation,
}
use mathlib.Core.Option
use ping_mesh.Model.{CheckResult, status_up}
use ping_mesh.Db.{Db, ResultRow, has, monitor_key, node_key, result_row, scan_result}
use ping_mesh.World.{Env, Act, exec, select, write}

unfoldable pub insert_result : CheckResult → Db → Result Db
insert_result r db =
    if has monitor_key r.monitor_id db.monitors && has node_key r.node_id db.nodes
    then ok (record db {
      check_results = db.check_results ++ result_row db.next_result_id r ∷ [];
      next_result_id = suc db.next_result_id;
    })
    else err foreign_key_violation

-- WHERE monitor_id = ? AND node_id = ?
unfoldable pub results_of : String → String → Db → List ResultRow
results_of monitor_id node_id db =
    keep_if (λ r. (r.monitor_id == monitor_id) && (r.node_id == node_id)) db.check_results

-- The loop over the rows: it counts while the status passes the test, and stops at the first row
-- that fails it.
unfoldable pub count_while : (String → Bool) → List ResultRow → ℕ
count_while test [] = 0
count_while test (r ∷ rs) = let rest = count_while test rs in if test r.status then suc rest else 0

abbrev pub is_up : String → Bool
is_up status = status == status_up

abbrev pub is_failure : String → Bool
is_failure status = not (status == status_up)

-- LIMIT 100
abbrev pub window_size : ℕ
window_size = 100

-- The conditions that ListCheckResults appends to its query.
unfoldable pub result_matches : String → String → ℤ → ResultRow → Bool
result_matches monitor_id node_id since r =
    (if monitor_id == "" then true else r.monitor_id == monitor_id)
    && (if node_id == "" then true else r.node_id == node_id)
    && (if ltb_ℤ (pos 0) since then leb_ℤ since r.timestamp else true)

-- ` LIMIT n`, where n is positive
unfoldable pub limited : {A : Type 0} → ℤ → List A → List A
limited limit rows = if ltb_ℤ (pos 0) limit then take (pos_part limit) rows else rows

module _ (env : Env) where
  unfoldable pub insert_check_result : CheckResult → Act (Result (Unit {0}))
  insert_check_result r = exec env (λ db. write (insert_result r db))

  -- The rows of the window, newest first.
  unfoldable pub recent_results : String → String → Db → List ResultRow
  recent_results monitor_id node_id db =
      take window_size (env.results_newest_first.sort (results_of monitor_id node_id db))

  unfoldable pub get_latest_result : String → String → Act (Result (Option CheckResult))
  get_latest_result monitor_id node_id = exec env (
      select (λ db.
        Option.map scan_result
          (head? (env.results_newest_first.sort (results_of monitor_id node_id db)))))

  unfoldable pub count_consecutive_failures : String → String → Act (Result ℕ)
  count_consecutive_failures monitor_id node_id =
      exec env (select (λ db. count_while is_failure (recent_results monitor_id node_id db)))

  unfoldable pub count_consecutive_successes : String → String → Act (Result ℕ)
  count_consecutive_successes monitor_id node_id =
      exec env (select (λ db. count_while is_up (recent_results monitor_id node_id db)))

  unfoldable pub list_check_results : String → String → ℤ → ℤ → Act (Result (List CheckResult))
  list_check_results monitor_id node_id since limit = exec env (
      select (λ db. map scan_result (
        limited limit (
          env.results_newest_first.sort
            (keep_if (result_matches monitor_id node_id since) db.check_results)))))
