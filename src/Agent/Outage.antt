-- ===== src/Agent/Outage.antt =====
-- A failure that a quorum of the nodes sees is recorded as a confirmed incident.
use ping_mesh.Prelude.{
  ◌≤ℤ◌, pos, ℕ, ◌≡◌, ◌≢◌, ◌∙◌, refl, sym, subst, String, true, false, List, [], Option, none, some,
  Result, ok, err, Bool-cases, inl, inr, length, arith, eq_iff, ◌==◌,
}
use mathlib.Core.Option
use ping_mesh.Model.{
  Node, Monitor, Incident, incident_suspect, incident_confirmed, incident_resolved,
}
use ping_mesh.Db.{Db, has, monitor_key, incident_key, scan_incident}
use ping_mesh.World.{Env, World, exec, now, new_uuid}
use ping_mesh.World.Frame.{counted}
use ping_mesh.Store.{
  get_active_incident, create_incident, insert_incident, newest_active, update_incident,
  set_incident,
}
use ping_mesh.Consensus.{
  evaluate_quorum, get_or_create_incident, found_or_created, create_suspect, confirm_incident,
  new_incident,
}
use ping_mesh.Consensus.Votes.{empty_quorum}
use ping_mesh.Consensus.Sound.Held.{not_resolved_of_held, status_of_held}
use ping_mesh.Consensus.Sound.Stored.{IsStored, StoredIf, confirm_incident-StoredIf}
use ping_mesh.Consensus.Sound.Created.{Hands, get_or_create_incident-Handed}
use ping_mesh.Agent.Effects.{count_failing-db}
use ping_mesh.Agent.Effects.Evolution.{after_confirming-db}
use ping_mesh.Agent.Decisions.{failing_nodes, count_failing_lem}
use ping_mesh.Agent.Evaluate.{
  slice_of, confirm_if_suspect, raise_incident, judge, evaluate_monitor_consensus,
}

-- The database holds an incident of the monitor that is past the suspicion and not resolved.
pub record IsDown (monitor_id : String) (db : Db) : Type 0 where
  pub incident : Incident
  pub stored : IsStored incident db
  pub mine : incident.monitor_id ≡ monitor_id
  pub not_suspect : incident.status ≢ incident_suspect
  pub not_resolved : incident.status ≢ incident_resolved

-- What a new incident can be stored under.
pub record IsReady (env : Env) (monitor_id : String) (db : Db) : Type 0 where
  pub known : has monitor_key monitor_id db.monitors ≡ true
  pub fresh : (k : ℕ) → has incident_key (env.uuids k) db.incidents ≡ false

module _ (env : Env) (quiet : (k : ℕ) → env.faults k ≡ false) where
  module _ (m : String) where
    create_suspect-ok :
        (w : World)
        → IsReady env m w.db
        → (create_suspect env m w).0
          ≡ ok (new_incident (env.uuids w.drawn) m (env.clock w.readings))
    unfolding create_suspect now new_uuid create_incident exec insert_incident
    create_suspect-ok w ready = rw (quiet w.statements, ready.fresh w.drawn, ready.known)

    found_or_created-ok :
        (o : Option Incident) (w : World)
        → IsReady env m w.db
        → (i : Incident) × (found_or_created env m o w).0 ≡ ok i
    unfolding found_or_created
    found_or_created-ok none w ready = (_, create_suspect-ok w ready)
    found_or_created-ok (some i) w ready = (i, refl)

    get_or_create-ok :
        (w : World)
        → IsReady env m w.db
        → (i : Incident) × (get_or_create_incident env m w).0 ≡ ok i
    unfolding get_or_create_incident get_active_incident exec
    get_or_create-ok w ready = rw (quiet w.statements) (
        found_or_created-ok (Option.map scan_incident (newest_active env m w.db)) (counted w) ready)

  confirm-ok :
      (i : Incident) (nodes : Option (List String)) (w : World)
      → (confirm_incident env i nodes w).0.1 ≡ ok tt
  unfolding confirm_incident now update_incident exec set_incident
  confirm-ok i nodes w = rw (quiet w.statements)

  module _ (m : Monitor) where
    confirm_if_suspect-IsDown :
        (ids : List String) (r : Result Incident) (i : Incident) (w : World)
        → r ≡ ok i
        → Hands m.id w.db r
        → IsDown m.id (confirm_if_suspect env m ids r w).1.db
    unfolding confirm_if_suspect confirm_incident
    confirm_if_suspect-IsDown ids (err e) i w eq h = cc
    confirm_if_suspect-IsDown ids (ok j) i w eq (held, mine) =
        elim (Bool-cases (j.status == incident_suspect)) [
          | inl e ↦
              let c = confirm_incident env j (slice_of ids) w in
              rw e (
                subst (IsDown m.id) (sym (after_confirming-db env m c.0 c.1)) (record {
                  incident = c.0.0;
                  stored =
                      subst (λ r. StoredIf r c.0.0 c.1.db) (confirm-ok j (slice_of ids) w)
                        (confirm_incident-StoredIf env j w held (slice_of ids));
                  mine = mine;
                  not_suspect = λ q. ground (arith, eq_iff incident_confirmed incident_suspect);
                  not_resolved = λ q. ground (arith, eq_iff incident_confirmed incident_resolved);
                }))
          | inr e ↦ rw e (record {
            incident = j;
            stored = record { row = held.row; stored = held.stored; same = held.same };
            mine = mine;
            not_suspect = λ q. ground (arith, eq_iff j.status incident_suspect);
            not_resolved = λ q. not_resolved_of_held j w.db held (status_of_held j w.db held ∙ q);
          })
        ]

    raise_incident-IsDown :
        (ids : List String) (w : World)
        → IsReady env m.id w.db
        → IsDown m.id (raise_incident env m ids w).1.db
    unfolding raise_incident
    raise_incident-IsDown ids w ready =
        let (i, e) = get_or_create-ok m.id w ready in
        confirm_if_suspect-IsDown ids _ i _ e (get_or_create_incident-Handed env m.id w).1

    judge-IsDown :
        (ns : List Node) (total : ℕ) (acc : ℕ × List String) (w : World)
        → IsReady env m.id w.db
        → evaluate_quorum m.quorum_type m.quorum_n acc.0 total ≡ true
        → IsDown m.id (judge env m ns total acc w).1.db
    unfolding judge
    judge-IsDown ns total (k, ids) w ready q = rw q (raise_incident-IsDown ids w ready)

    -- Where no statement fails, the monitor is stored and no UUID that is drawn is taken: if the
    -- nodes whose streak of failures reaches the threshold are a quorum of the total, then after
    -- the evaluation the database holds an incident of the monitor that is neither suspect nor
    -- resolved.
    pub outage_confirmed :
        (ns : List Node) (total : ℕ) (w : World)
        → IsReady env m.id w.db
        → evaluate_quorum m.quorum_type m.quorum_n (length (failing_nodes env m w.db ns)) total
          ≡ true
        → IsDown m.id (evaluate_monitor_consensus env m ns total w).1.db
    unfolding evaluate_monitor_consensus
    outage_confirmed ns total w ready q =
        judge-IsDown ns total _ _
          (subst (IsReady env m.id) (sym (count_failing-db env m ns (0, []) w)) ready)
          (subst
            (λ (a : ℕ × List String). evaluate_quorum m.quorum_type m.quorum_n a.0 total ≡ true)
            (sym (count_failing_lem env m ns w quiet)) q)

    -- Where no statement fails, the monitor is stored and no UUID that is drawn is taken: a
    -- monitor of type n_of_m whose number is not positive has an incident that is neither suspect
    -- nor resolved after an evaluation, whatever its results.
    pub false_alarm :
        (ns : List Node) (total : ℕ) (w : World)
        → IsReady env m.id w.db
        → m.quorum_type ≡ "n_of_m"
        → m.quorum_n ≤ℤ pos 0
        → IsDown m.id (evaluate_monitor_consensus env m ns total w).1.db
    false_alarm ns total w ready t n = outage_confirmed ns total w ready (
        subst
          (λ q. evaluate_quorum q m.quorum_n (length (failing_nodes env m w.db ns)) total ≡ true)
          (sym t) (empty_quorum m.quorum_n (length (failing_nodes env m w.db ns)) total n))
