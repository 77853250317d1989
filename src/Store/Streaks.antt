-- ===== src/Store/Streaks.antt =====
-- CountConsecutiveFailures and CountConsecutiveSuccesses: the longest run of failures, or of
-- successes, with which the newest hundred results of a monitor on a node begin.
use ping_mesh.Prelude.{
  Option, none, some, ℕ, ◌≤◌, ◌≡◌, ◌≢◌, refl, String, Bool, List, [], ◌∷◌, arith, ◌⊎◌, inl, All,
  take, drop, head?, length, length-take-le, ok,
}
use ping_mesh.Model.{status_up}
use ping_mesh.Db.{ResultRow, Db}
use ping_mesh.World.{Env, World, exec}
use ping_mesh.Store.Results.{
  count_while, is_up, is_failure, recent_results, count_consecutive_failures,
  count_consecutive_successes, window_size,
}

-- Every status but up is a failure.
abbrev pub IsUp : ResultRow → Type 0
IsUp r = r.status ≡ status_up

abbrev pub IsDown : ResultRow → Type 0
IsDown r = r.status ≢ status_up

-- A result of the monitor on the node.
abbrev pub IsOf : String → String → ResultRow → Type 0
IsOf monitor_id node_id r = (r.monitor_id ≡ monitor_id) × (r.node_id ≡ node_id)

abbrev pub StopsAt : (ResultRow → Type 0) → Option ResultRow → Type 0
StopsAt Other none = Unit
StopsAt Other (some r) = Other r

-- The first `k` rows are of one kind, and the next one, if there is one, is of the other.
pub record IsRun (Kind Other : ResultRow → Type 0) (k : ℕ) (rs : List ResultRow) : Type 0 where
  pub within : k ≤ length rs
  pub same : All Kind (take k rs)
  pub stop : StopsAt Other (head? (drop k rs))

count_while-le : (test : String → Bool) (rs : List ResultRow) → count_while test rs ≤ length rs
unfolding count_while
count_while-le test [] = omega arith
count_while-le test (r ∷ rs) = ground (arith, count_while-le test rs)

-- No list of results begins both with a failure and with a success.
count_while-exclusive :
    (rs : List ResultRow) → (count_while is_failure rs ≡ 0) ⊎ (count_while is_up rs ≡ 0)
unfolding count_while
count_while-exclusive [] = inl refl
count_while-exclusive (r ∷ rs) = ground arith

module _ (env : Env) (monitor_id node_id : String) where
  count_of_failures :
      (w : World) (k : ℕ)
      → (count_consecutive_failures env monitor_id node_id w).0 ≡ ok k
      → k ≡ count_while is_failure (recent_results env monitor_id node_id w.db)
  unfolding count_consecutive_failures exec
  count_of_failures w k e = ground arith

  count_of_successes :
      (w : World) (k : ℕ)
      → (count_consecutive_successes env monitor_id node_id w).0 ≡ ok k
      → k ≡ count_while is_up (recent_results env monitor_id node_id w.db)
  unfolding count_consecutive_successes exec
  count_of_successes w k e = ground arith

  length-recent_results : (db : Db) → length (recent_results env monitor_id node_id db) ≤ 100
  unfolding recent_results
  length-recent_results db = length-take-le window_size _

  pub count_failures-le :
      (w : World) (k : ℕ) → (count_consecutive_failures env monitor_id node_id w).0 ≡ ok k → k ≤ 100
  count_failures-le w k e = rw (count_of_failures w k e) (
      omega (
        arith,
        count_while-le is_failure (recent_results env monitor_id node_id w.db),
        length-recent_results w.db,
      ))

  -- On one database, of the counts of consecutive failures and of consecutive successes of a
  -- monitor on a node, where neither fails, one is zero.
  pub counts_exclusive :
      (w v : World) (f s : ℕ)
      → w.db ≡ v.db
      → (count_consecutive_failures env monitor_id node_id w).0 ≡ ok f
      → (count_consecutive_successes env monitor_id node_id v).0 ≡ ok s
      → (f ≡ 0) ⊎ (s ≡ 0)
  counts_exclusive w v f s same ef es =
      rw (count_of_failures w f ef, count_of_successes v s es, same)
        (count_while-exclusive (recent_results env monitor_id node_id v.db))
