-- ===== src/Agent/Effects/Evolution.antt =====
-- What evaluateConsensus does to the incidents, whatever statements fail: they change only by the
-- incident manager's operations, on incidents that are held.
use ping_mesh.Prelude.{
  get_elem?, ◌++◌, ◌≡◌, refl, sym, ap, subst, ℕ, String, List, [], ◌∷◌, Option, none, some, Result,
  ok, err, Bool-cases, inl, inr, eq_iff, ◌==◌, nat_eq, length,
}
use mathlib.Core.Option
use ping_mesh.Model.{Node, Monitor, Incident, incident_suspect, incident_resolved}
use ping_mesh.Db.{Db, IncidentRow, scan_incident}
use ping_mesh.World.{Env, World, exec}
use ping_mesh.World.Frame.{exec-select}
use ping_mesh.Store.{get_active_incident, newest_active, list_enabled_monitors, list_nodes}
use ping_mesh.Cluster.{get_online_nodes}
use ping_mesh.Alert.{send_alert, send_recovery}
use ping_mesh.Consensus.{confirm_incident, resolve_incident, evaluate_quorum}
use ping_mesh.Consensus.Lifecycle.{Evolves, resolved_in_place}
use ping_mesh.Consensus.Sound.{IsOrderly, Sound, Sound-refl, Sound-trans, IsHeld}
use ping_mesh.Consensus.Sound.Held.{confirm_incident-Sound, resolve_incident-Sound}
use ping_mesh.Consensus.Sound.Created.{Hands, get_or_create_incident-Handed, IsHeld-of_newest}
use ping_mesh.Agent.Effects.{dispatch-db, count_failing-db, count_recovered-db}
use ping_mesh.Agent.Evaluate.{
  slice_of, after_confirming, after_resolving, confirm_if_suspect, raise_incident,
  resolve_if_quorum, resolve_if_recovered, resolve_active, check_recovery, judge,
  evaluate_monitor_consensus, evaluate_each, evaluate_all, evaluate_listed, evaluate_consensus,
}

abbrev pub IsSame : World → World → Type 0
IsSame w v = v.db ≡ w.db

Sound-same : (a b : Db) → b ≡ a → Sound a b
Sound-same a b e = subst (Sound a) (sym e) (Sound-refl a)

-- An incident that is found is held, and it is the monitor's.
abbrev pub HoldsIf : String → Db → Result (Option Incident) → Type 0
HoldsIf m db (ok (some i)) = IsHeld i db × (i.monitor_id ≡ m)
HoldsIf m db (ok none) = Unit
HoldsIf m db (err e) = Unit

module _ (env : Env) (m : Monitor) where
  pub after_confirming-db :
      (x : Incident × Result (Unit {0})) (w : World) → IsSame w (after_confirming env m x w).1
  unfolding after_confirming send_alert
  after_confirming-db (i, ok _) w = dispatch-db env i m "alert" w
  after_confirming-db (i, err e) w = refl

  after_resolving-db :
      (x : Incident × Result (Unit {0})) (w : World) → IsSame w (after_resolving env m x w).1
  unfolding after_resolving send_recovery
  after_resolving-db (i, ok _) w = dispatch-db env i m "recovery" w
  after_resolving-db (i, err e) w = refl

  confirm_if_suspect-Sound :
      (ids : List String) (r : Result Incident) (w : World)
      → Hands m.id w.db r
      → Sound w.db (confirm_if_suspect env m ids r w).1.db
  unfolding confirm_if_suspect
  confirm_if_suspect-Sound ids (err e) w h = Sound-refl w.db
  confirm_if_suspect-Sound ids (ok i) w (held, mine) =
      elim (Bool-cases (i.status == incident_suspect)) [
        | inl e ↦
            let c = confirm_incident env i (slice_of ids) w in
            rw e (
              subst (Sound w.db) (sym (after_confirming-db c.0 c.1)) (
                confirm_incident-Sound env i w held (slice_of ids)
                  ((eq_iff i.status incident_suspect).0 e)))
        | inr e ↦ rw e (Sound-refl w.db)
      ]

  raise_incident-Sound :
      (ids : List String) (w : World) → Sound w.db (raise_incident env m ids w).1.db
  unfolding raise_incident
  raise_incident-Sound ids w =
      let (kept, hands) = get_or_create_incident-Handed env m.id w in
      Sound-trans w.db _ _ kept (confirm_if_suspect-Sound ids _ _ hands)

  resolve_if_quorum-Sound :
      (total : ℕ) (i : Incident) (k : ℕ) (w : World)
      → IsHeld i w.db
      → Sound w.db (resolve_if_quorum env m total i k w).1.db
  unfolding resolve_if_quorum
  resolve_if_quorum-Sound total i k w held =
      elim (Bool-cases (evaluate_quorum m.quorum_type m.quorum_n k total)) [
        | inl e ↦
            let c = resolve_incident env i w in
            rw e (
              subst (Sound w.db) (sym (after_resolving-db c.0 c.1))
                (resolve_incident-Sound env i w held))
        | inr e ↦ rw e (Sound-refl w.db)
      ]

  resolve_if_recovered-Sound :
      (ns : List Node) (total : ℕ) (i : Incident) (w : World)
      → IsHeld i w.db
      → Sound w.db (resolve_if_recovered env m ns total i w).1.db
  unfolding resolve_if_recovered
  resolve_if_recovered-Sound ns total i w held =
      let same = sym (count_recovered-db env m ns 0 w) in
      subst (λ d. Sound d (resolve_if_recovered env m ns total i w).1.db) (sym same)
        (resolve_if_quorum-Sound total i _ _ (subst (IsHeld i) same held))

  resolve_active-Sound :
      (ns : List Node) (total : ℕ) (r : Result (Option Incident)) (w : World)
      → HoldsIf m.id w.db r
      → Sound w.db (resolve_active env m ns total r w).1.db
  unfolding resolve_active
  resolve_active-Sound ns total (ok (some i)) w (held, mine) =
      resolve_if_recovered-Sound ns total i w held
  resolve_active-Sound ns total (ok none) w h = Sound-refl w.db
  resolve_active-Sound ns total (err e) w h = Sound-refl w.db

  found-HoldsIf :
      (db : Db) (o : Option IncidentRow)
      → newest_active env m.id db ≡ o
      → HoldsIf m.id db (ok (Option.map scan_incident o))
  unfolding scan_incident
  found-HoldsIf db none e = tt
  found-HoldsIf db (some r) e = IsHeld-of_newest env m.id db r e

  pub active_incident-HoldsIf : (w : World) → HoldsIf m.id w.db (get_active_incident env m.id w).0
  unfolding get_active_incident exec
  active_incident-HoldsIf w = elim (Bool-cases (env.faults w.statements)) [
    | inl e ↦ rw e tt
    | inr e ↦ rw e (found-HoldsIf w.db (newest_active env m.id w.db) refl)
  ]

  pub active_incident-db : (w : World) → IsSame w (get_active_incident env m.id w).1
  unfolding get_active_incident
  active_incident-db w = ap (λ (v : World). v.db) (exec-select env _ w)

  check_recovery-Sound :
      (ns : List Node) (total : ℕ) (w : World) → Sound w.db (check_recovery env m ns total w).1.db
  unfolding check_recovery
  check_recovery-Sound ns total w =
      let (r, v) = get_active_incident env m.id w in
      let same = sym (active_incident-db w) in
      subst (λ d. Sound d (check_recovery env m ns total w).1.db) (sym same)
        (resolve_active-Sound ns total _ _ (
          subst (λ d. HoldsIf m.id d (get_active_incident env m.id w).0) same
            (active_incident-HoldsIf w)))

  judge-Sound :
      (ns : List Node) (total : ℕ) (acc : ℕ × List String) (w : World)
      → Sound w.db (judge env m ns total acc w).1.db
  unfolding judge
  judge-Sound ns total (count, ids) w =
      elim (Bool-cases (evaluate_quorum m.quorum_type m.quorum_n count total)) [
        | inl e ↦ rw e (raise_incident-Sound ids w)
        | inr e ↦ rw e (check_recovery-Sound ns total w)
      ]

  evaluate_monitor_consensus-Sound :
      (ns : List Node) (total : ℕ) (w : World)
      → Sound w.db (evaluate_monitor_consensus env m ns total w).1.db
  unfolding evaluate_monitor_consensus
  evaluate_monitor_consensus-Sound ns total w =
      subst (λ d. Sound d (evaluate_monitor_consensus env m ns total w).1.db)
        (count_failing-db env m ns (0, []) w) (judge-Sound ns total _ _)

module _ (env : Env) where
  evaluate_each-Sound :
      (ns : List Node) (total : ℕ) (ms : List Monitor) (w : World)
      → Sound w.db (evaluate_each env ns total ms w).1.db
  unfolding evaluate_each
  evaluate_each-Sound ns total [] w = Sound-refl w.db
  evaluate_each-Sound ns total (m ∷ ms) w =
      Sound-trans w.db _ _ (evaluate_monitor_consensus-Sound env m ns total w)
        (evaluate_each-Sound ns total ms _)

  evaluate_all-Sound :
      (ms : List Monitor) (r : Result (List Node)) (w : World)
      → Sound w.db (evaluate_all env ms r w).1.db
  unfolding evaluate_all
  evaluate_all-Sound ms (err e) w = Sound-refl w.db
  evaluate_all-Sound ms (ok ns) w = elim (Bool-cases (nat_eq (length ns) 0)) [
    | inl e ↦ rw e (Sound-refl w.db)
    | inr e ↦ rw e (evaluate_each-Sound ns (length ns) ms w)
  ]

  online_nodes-db : (w : World) → IsSame w (get_online_nodes env w).1
  unfolding get_online_nodes list_nodes exec
  online_nodes-db w = elim (Bool-cases (env.faults w.statements)) [
    | inl e ↦ rw e refl
    | inr e ↦ rw e refl
  ]

  evaluate_listed-Sound :
      (r : Result (List Monitor)) (w : World) → Sound w.db (evaluate_listed env r w).1.db
  unfolding evaluate_listed
  evaluate_listed-Sound (err e) w = Sound-refl w.db
  evaluate_listed-Sound (ok ms) w =
      subst (λ d. Sound d (evaluate_listed env (ok ms) w).1.db) (online_nodes-db w)
        (evaluate_all-Sound ms _ _)

  listed_monitors-db : (w : World) → IsSame w (list_enabled_monitors env w).1
  unfolding list_enabled_monitors
  listed_monitors-db w = ap (λ (v : World). v.db) (exec-select env _ w)

  pub evaluate_consensus-Sound : (w : World) → Sound w.db (evaluate_consensus env w).1.db
  unfolding evaluate_consensus
  evaluate_consensus-Sound w =
      subst (λ d. Sound d (evaluate_consensus env w).1.db) (listed_monitors-db w)
        (evaluate_listed-Sound _ _)

  -- Whatever statements fail, evaluateConsensus takes an orderly database to an orderly one: keys
  -- are unique, references hold, and no monitor has two active incidents. Every incident of before
  -- stays in its place and lives on by steps, from suspect to confirmed or from active to
  -- resolved, and every incident behind those began as a suspect.
  pub evaluate_consensus_keeps :
      (w : World)
      → IsOrderly w.db
      → IsOrderly (evaluate_consensus env w).1.db
        × Evolves w.db.incidents (evaluate_consensus env w).1.db.incidents
  evaluate_consensus_keeps w o = evaluate_consensus-Sound w o

  -- From an orderly database and whatever statements fail, an incident that is resolved before
  -- evaluateConsensus is the same row, in the same place, after it.
  pub resolved_stays :
      (w : World) (before : List IncidentRow) (r : IncidentRow) (behind : List IncidentRow)
      → IsOrderly w.db
      → w.db.incidents ≡ before ++ r ∷ behind
      → r.status ≡ incident_resolved
      → get_elem? (evaluate_consensus env w).1.db.incidents (length before) ≡ some r
  resolved_stays w before r behind o e done =
      resolved_in_place before r behind _
        (subst (λ l. Evolves l (evaluate_consensus env w).1.db.incidents) e
          (evaluate_consensus-Sound w o).1)
        done
