-- ===== src/Agent/Merge.antt =====
-- applyConfigSync as an update of the monitors that a node knows, seen as a function from ids.
use ping_mesh.Prelude.{
  ◌≡◌, ◌∙◌, refl, sym, ap, subst, ℕ, String, false, List, [], ◌∷◌, Option, none, some, Result, ok,
  err, Bool-cases, Option-cases, inl, inr, arith, ◌==◌, eq_iff, if◌then◌else◌,
}
use mathlib.Core.Option
use ping_mesh.Model.{Node, Monitor, ConfigSync}
use ping_mesh.Db.{node_key, Db, has, find, monitor_key, scan_monitor, has-eq_find}
use ping_mesh.World.{Env, World, exec, settle}
use ping_mesh.World.Frame.{After, exec-select, exec-write}
use ping_mesh.Store.{
  get_monitor, create_monitor, update_monitor, insert_monitor, set_monitor, get_node, create_node,
  update_node, insert_node, set_node,
}
use ping_mesh.Store.RoundTrip.{stored_monitor, created, updated}
use ping_mesh.Agent.Sync.{merge_monitor, merge_monitors, merge_node, merge_nodes, apply_config_sync}

-- What a monitor that is received leaves of the stored one: its id and its time of creation.
abbrev pub over : Monitor → Option Monitor → Monitor
over m none = m
over m (some old) = record m { id = old.id; created_at = old.created_at }

-- The monitor with an id after those of the list have come in.
abbrev pub received : String → List Monitor → Option Monitor → Option Monitor
received j [] o = o
received j (m ∷ ms) o = received j ms (if m.id == j then some (over m o) else o)

module _ (env : Env) (quiet : (k : ℕ) → env.faults k ≡ false) where
  create-quiet :
      (m : Monitor) (w : World)
      → stored_monitor m.id w.db ≡ none
      → (create_monitor env m w).0 ≡ ok tt
  unfolding create_monitor exec insert_monitor settle
  create-quiet m w gone = elim (Option-cases (find monitor_key m.id w.db.monitors)) [
    | inl e ↦ rw (quiet w.statements) ground (arith, has-eq_find monitor_key m.id w.db.monitors)
    | inr (r, e) ↦ cc
  ]

  update-quiet : (m : Monitor) (w : World) → (update_monitor env m w).0 ≡ ok tt
  unfolding update_monitor exec set_monitor settle
  update-quiet m w = rw (quiet w.statements)

  merge_monitor-quiet :
      (m : Monitor) (j : String) (o : Option Monitor) (w : World)
      → stored_monitor m.id w.db ≡ o
      → stored_monitor j (merge_monitor env m (ok o) w).1.db
        ≡ (if m.id == j then some (over m (stored_monitor j w.db)) else stored_monitor j w.db)
  unfolding merge_monitor
  merge_monitor-quiet m j none w e =
      created env m j w _ (λ i. (create-quiet m w e i, (create_monitor env m w).1))
      ∙ elim (Bool-cases (m.id == j)) [
        | inl same ↦ rw same (
            sym (
              ap (λ (o : Option Monitor). some (over m o))
                (subst (λ id. stored_monitor id w.db ≡ none) ((eq_iff m.id j).0 same) e)))
        | inr other ↦ rw other
      ]
  merge_monitor-quiet m j (some old) w e =
      updated env m j w _ (λ i. (update-quiet m w i, (update_monitor env m w).1))
      ∙ elim (Bool-cases (m.id == j)) [
        | inl same ↦
            let h : stored_monitor j w.db ≡ some old =
              subst (λ id. stored_monitor id w.db ≡ some old) ((eq_iff m.id j).0 same) e in
            rw same (
              ap
                (λ (o : Option Monitor).
                  Option.map (λ was. record m { id = was.id; created_at = was.created_at }) o)
                h
              ∙ sym (ap (λ (o : Option Monitor). some (over m o)) h))
        | inr other ↦ rw other
      ]

  get_monitor-quiet :
      (id : String) (w : World) → (get_monitor env id w).0 ≡ ok (stored_monitor id w.db)
  unfolding get_monitor exec settle
  get_monitor-quiet id w = rw (quiet w.statements)

  get_monitor-db : (id : String) (w : World) → (get_monitor env id w).1.db ≡ w.db
  unfolding get_monitor
  get_monitor-db id w = ap (λ (v : World). v.db) (exec-select env _ w)

  merge_monitors-received :
      (j : String) (ms : List Monitor) (w : World)
      → stored_monitor j (merge_monitors env ms w).1.db ≡ received j ms (stored_monitor j w.db)
  unfolding merge_monitors
  merge_monitors-received j [] w = refl
  merge_monitors-received j (m ∷ ms) w =
      merge_monitors-received j ms _
      ∙ ap (received j ms) (
          ap (λ r. stored_monitor j (merge_monitor env m r v).1.db) (get_monitor-quiet m.id w)
          ∙ merge_monitor-quiet m j (stored_monitor m.id w.db) v (ap (stored_monitor m.id) same)
          ∙ ap (λ o. if m.id == j then some (over m o) else o) (ap (stored_monitor j) same))
    where
      v : World
      v = (get_monitor env m.id w).1

      same : v.db ≡ w.db
      same = get_monitor-db m.id w

  insert_node-monitors :
      (n : Node) (db : Db) → After (λ d. d.monitors ≡ db.monitors) (insert_node n db)
  unfolding insert_node
  insert_node-monitors n db = elim (Bool-cases (has node_key n.id db.nodes)) [
    | inl e ↦ rw e tt
    | inr e ↦ rw e refl
  ]

  merge_node-monitors :
      (n : Node) (r : Result (Option Node)) (w : World)
      → (merge_node env n r w).1.db.monitors ≡ w.db.monitors
  unfolding merge_node create_node update_node set_node
  merge_node-monitors n (err e) w = refl
  merge_node-monitors n (ok none) w =
      exec-write env (λ d. d.monitors ≡ w.db.monitors) (insert_node n) w
        (insert_node-monitors n w.db) refl
  merge_node-monitors n (ok (some old)) w =
      exec-write env (λ d. d.monitors ≡ w.db.monitors) (set_node n) w refl refl

  merge_nodes-monitors :
      (ns : List Node) (w : World) → (merge_nodes env ns w).1.db.monitors ≡ w.db.monitors
  unfolding merge_nodes get_node
  merge_nodes-monitors [] w = refl
  merge_nodes-monitors (n ∷ ns) w =
      merge_nodes-monitors ns _
      ∙ merge_node-monitors n _ _
      ∙ ap (λ (v : World). v.db.monitors) (exec-select env _ w)

  -- Where no statement fails, applyConfigSync acts on the monitors as on a function from ids:
  -- under each id the monitors that are received with it come in one after the other, a new one
  -- whole and a known one with the stored id and time of creation, and ids that are not received
  -- keep what they had.
  pub apply_config_sync-received :
      (sync : ConfigSync) (j : String) (w : World)
      → stored_monitor j (apply_config_sync env sync w).1.db
        ≡ received j sync.monitors (stored_monitor j w.db)
  unfolding apply_config_sync
  apply_config_sync-received sync j w =
      ap (λ rows. Option.map scan_monitor (find monitor_key j rows))
        (merge_nodes-monitors sync.nodes _)
      ∙ merge_monitors-received j sync.monitors w
