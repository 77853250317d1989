-- ===== src/Agent/Decisions.antt =====
-- What the coordinator decides from the stored results.
use ping_mesh.Prelude.{
  ℕ, suc, ◌+◌, ◌≤◌, ◌≡◌, ◌≢◌, ◌∙◌, refl, sym, ap, pos, ◌≤ℤ◌, leb_ℤ, String, true, false, List, [],
  ◌∷◌, ◌++◌, map, Result-cases, Result, ok, Bool-cases, inl, inr, length, arith, keep_if,
}
use mathlib.Core.List.{append_assoc, append-nil}
use ping_mesh.Model.{Node, Monitor}
use ping_mesh.Db.{Db}
use ping_mesh.World.{Env, World, exec}
use ping_mesh.World.Frame.{exec-select}
use ping_mesh.Store.{
  count_consecutive_failures, count_consecutive_successes, count_while, is_failure, recent_results,
}
use ping_mesh.Store.Streaks.{count_failures-le, counts_exclusive}
use ping_mesh.Consensus.{evaluate_quorum}
use ping_mesh.Consensus.Votes.{majorities_intersect}
use ping_mesh.Agent.Evaluate.{add_failing, add_recovered, count_failing, count_recovered}

module _ (env : Env) (m : Monitor) where
  -- A node whose results the database holds counts as failing or as recovered, not as both.
  votes_exclusive :
      (n : Node) (w v : World) (f s : ℕ) (ids : List String)
      → w.db ≡ v.db
      → pos 1 ≤ℤ m.failure_threshold
      → pos 1 ≤ℤ m.recovery_threshold
      → (add_failing m n (count_consecutive_failures env m.id n.id w).0 (f, ids)).0
          + add_recovered m (count_consecutive_successes env m.id n.id v).0 s
        ≤ f + s + 1
  unfolding add_failing add_recovered
  votes_exclusive n w v f s ids same hf hs =
      elim (Result-cases (count_consecutive_failures env m.id n.id w).0) [
        | inl (a, ea) ↦ elim (Result-cases (count_consecutive_successes env m.id n.id v).0) [
          | inl (b, eb) ↦
              rw (ea, eb) ground (arith, counts_exclusive env m.id n.id w v a b same ea eb)
          | inr (x, eb) ↦ rw (ea, eb) ground arith
        ]
        | inr (x, ea) ↦ elim (Result-cases (count_consecutive_successes env m.id n.id v).0) [
          | inl (b, eb) ↦ rw (ea, eb) ground arith
          | inr (y, eb) ↦ rw (ea, eb) omega arith
        ]
      ]

  failures-db : (n : Node) (w : World) → (count_consecutive_failures env m.id n.id w).1.db ≡ w.db
  unfolding count_consecutive_failures
  failures-db n w = ap (λ (v : World). v.db) (exec-select env _ w)

  successes-db : (n : Node) (w : World) → (count_consecutive_successes env m.id n.id w).1.db ≡ w.db
  unfolding count_consecutive_successes
  successes-db n w = ap (λ (v : World). v.db) (exec-select env _ w)

  -- No node is on both sides: those that count as failing and those that count as recovered are
  -- together no more than the nodes.
  pub sides_exclusive :
      (ns : List Node) (w v : World) (f s : ℕ) (ids : List String)
      → w.db ≡ v.db
      → pos 1 ≤ℤ m.failure_threshold
      → pos 1 ≤ℤ m.recovery_threshold
      → (count_failing env m ns (f, ids) w).0.0 + (count_recovered env m ns s v).0
        ≤ f + s + length ns
  unfolding count_failing count_recovered
  sides_exclusive [] w v f s ids same hf hs = omega arith
  sides_exclusive (n ∷ ns) w v f s ids same hf hs =
      let x = count_consecutive_failures env m.id n.id w in
      let y = count_consecutive_successes env m.id n.id v in
      let a = add_failing m n x.0 (f, ids) in
      let b = add_recovered m y.0 s in
      omega (
        arith,
        votes_exclusive n w v f s ids same hf hs,
        sides_exclusive ns x.1 y.1 a.0 b a.1 (failures-db n w ∙ same ∙ sym (successes-db n v)) hf
            hs,
      )

  -- For a monitor with positive thresholds and a quorum type other than n_of_m, on two worlds with
  -- one database: if the nodes that count as failing are a quorum of the nodes, then those that
  -- count as recovered are not.
  pub majority_decides :
      (ns : List Node) (w v : World)
      → m.quorum_type ≢ "n_of_m"
      → w.db ≡ v.db
      → pos 1 ≤ℤ m.failure_threshold
      → pos 1 ≤ℤ m.recovery_threshold
      → evaluate_quorum m.quorum_type m.quorum_n (count_failing env m ns (0, []) w).0.0 (length ns)
        ≡ true
      → evaluate_quorum m.quorum_type m.quorum_n (count_recovered env m ns 0 v).0 (length ns)
        ≡ false
  majority_decides ns w v h same hf hs e =
      majorities_intersect m.quorum_type m.quorum_n _ _ (length ns) h
        (omega (arith, sides_exclusive ns w v 0 0 [] same hf hs)) e

  -- A threshold above a hundred is out of reach, since the query looks at a hundred results.
  never_failing :
      (n : Node) (w : World) (acc : ℕ × List String)
      → pos 101 ≤ℤ m.failure_threshold
      → add_failing m n (count_consecutive_failures env m.id n.id w).0 acc ≡ acc
  unfolding add_failing
  never_failing n w (c, ids) h =
      elim (Result-cases (count_consecutive_failures env m.id n.id w).0) [
        | inl (k, e) ↦ rw e ground (arith, count_failures-le env m.id n.id w k e)
        | inr (x, e) ↦ rw e refl
      ]

  -- With a failure threshold above a hundred, the count over the nodes adds no node, whatever the
  -- results are and whatever statements fail.
  pub threshold_out_of_reach :
      (ns : List Node) (acc : ℕ × List String) (w : World)
      → pos 101 ≤ℤ m.failure_threshold
      → (count_failing env m ns acc w).0 ≡ acc
  unfolding count_failing
  threshold_out_of_reach [] acc w h = refl
  threshold_out_of_reach (n ∷ ns) acc w h =
      let x = count_consecutive_failures env m.id n.id w in
      threshold_out_of_reach ns _ x.1 h ∙ never_failing n w acc h

  -- The nodes whose streak of failures reaches the threshold.
  abbrev pub failing_nodes : Db → List Node → List Node
  failing_nodes db = keep_if (λ n.
      leb_ℤ m.failure_threshold (pos (count_while is_failure (recent_results env m.id n.id db))))

  count_of_quiet :
      (n : Node) (w : World)
      → ((k : ℕ) → env.faults k ≡ false)
      → (count_consecutive_failures env m.id n.id w).0
        ≡ ok (count_while is_failure (recent_results env m.id n.id w.db))
  unfolding count_consecutive_failures exec
  count_of_quiet n w quiet = rw (quiet w.statements)

  count_failing-quiet :
      (db : Db) (ns : List Node) (c : ℕ) (ids : List String) (w : World)
      → w.db ≡ db
      → ((k : ℕ) → env.faults k ≡ false)
      → (count_failing env m ns (c, ids) w).0
        ≡ (c + length (failing_nodes db ns), ids ++ map (λ n. n.id) (failing_nodes db ns))
  unfolding count_failing add_failing
  count_failing-quiet db [] c ids w same quiet = λ i. (plus_zero i, sym (append-nil ids) i)
    where
      plus_zero : c ≡ c + 0
      plus_zero = omega arith
  count_failing-quiet db (n ∷ ns) c ids w same quiet =
      ap (λ r. (count_failing env m ns (add_failing m n r (c, ids)) v).0)
        (count_of_quiet n w quiet ∙ ap streak same)
      ∙ elim (Bool-cases (
          leb_ℤ m.failure_threshold
            (pos (count_while is_failure (recent_results env m.id n.id db))))) [
              | inl e ↦ rw e (
                  count_failing-quiet db ns (suc c) (ids ++ n.id ∷ []) v (failures-db n w ∙ same)
                    quiet
                  ∙ (λ i. (
                    plus_suc i,
                    append_assoc ids (n.id ∷ []) (map (λ x. x.id) (failing_nodes db ns)) i,
                  )))
              | inr e ↦ rw e (count_failing-quiet db ns c ids v (failures-db n w ∙ same) quiet)
            ]
    where
      streak : Db → Result ℕ
      streak d = ok (count_while is_failure (recent_results env m.id n.id d))

      v : World
      v = (count_consecutive_failures env m.id n.id w).1

      plus_suc : suc c + length (failing_nodes db ns) ≡ c + suc (length (failing_nodes db ns))
      plus_suc = omega arith

  -- Where no statement fails, the count over the nodes is the number of those whose streak of
  -- failures reaches the threshold, and the ids recorded are theirs, in the order of the nodes.
  pub count_failing_lem :
      (ns : List Node) (w : World)
      → ((k : ℕ) → env.faults k ≡ false)
      → (count_failing env m ns (0, []) w).0
        ≡ (length (failing_nodes w.db ns), map (λ n. n.id) (failing_nodes w.db ns))
  count_failing_lem ns w quiet =
      count_failing-quiet w.db ns 0 [] w refl quiet
      ∙ (λ i. (no_more i, map (λ n. n.id) (failing_nodes w.db ns)))
    where
      no_more : 0 + length (failing_nodes w.db ns) ≡ length (failing_nodes w.db ns)
      no_more = omega arith
