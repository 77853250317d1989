-- ===== src/Agent/Announce/Once.antt =====
-- A whole evaluation of a monitor announces at most one incident, and nothing but what is stored.
use ping_mesh.Prelude.{
  ◌≡◌, ◌∙◌, refl, sym, subst, ℕ, String, List, [], ◌∷◌, Option, none, some, Result, ok, err,
  Bool-cases, inl, inr,
}
use ping_mesh.Model.{Node, Monitor, Incident}
use ping_mesh.World.{Env, World, now, new_uuid, or_return, pure}
use ping_mesh.World.Frame.{exec-pending}
use ping_mesh.Store.{
  get_active_incident, count_consecutive_failures, count_consecutive_successes, create_incident,
}
use ping_mesh.Consensus.{evaluate_quorum, get_or_create_incident, found_or_created, create_suspect}
use ping_mesh.Consensus.Sound.{IsHeld}
use ping_mesh.Consensus.Sound.Created.{get_or_create_incident-Handed}
use ping_mesh.Agent.Effects.{count_recovered-db}
use ping_mesh.Agent.Effects.Evolution.{HoldsIf, active_incident-HoldsIf, active_incident-db}
use ping_mesh.Agent.Evaluate.{
  count_failing, count_recovered, raise_incident, resolve_if_recovered, resolve_active,
  check_recovery, judge, evaluate_monitor_consensus,
}
use ping_mesh.Agent.Announce.{Outcome, confirm_if_suspect-Outcome, resolve_if_quorum-Outcome}

-- The incident manager starts no notification.
stored-pending :
    (i : Incident) (r : Result (Unit {0})) (v : World)
    → (or_return (λ _. pure (ok i)) r v).1.pending ≡ v.pending
stored-pending i (ok _) v = refl
stored-pending i (err e) v = refl

module _ (env : Env) (m : String) where
  create_suspect-pending : (w : World) → (create_suspect env m w).1.pending ≡ w.pending
  unfolding create_suspect now new_uuid create_incident
  create_suspect-pending w = stored-pending _ _ _ ∙ exec-pending env _ _

  found_or_created-pending :
      (o : Option Incident) (w : World) → (found_or_created env m o w).1.pending ≡ w.pending
  unfolding found_or_created
  found_or_created-pending none w = create_suspect-pending w
  found_or_created-pending (some i) w = refl

  returned-pending :
      (r : Result (Option Incident)) (w : World)
      → (or_return (found_or_created env m) r w).1.pending ≡ w.pending
  returned-pending (ok o) w = found_or_created-pending o w
  returned-pending (err e) w = refl

  get_or_create_incident-pending :
      (w : World) → (get_or_create_incident env m w).1.pending ≡ w.pending
  unfolding get_or_create_incident get_active_incident
  get_or_create_incident-pending w = returned-pending _ _ ∙ exec-pending env _ w

module _ (env : Env) (m : Monitor) where
  count_failing-pending :
      (ns : List Node) (acc : ℕ × List String) (w : World)
      → (count_failing env m ns acc w).1.pending ≡ w.pending
  unfolding count_failing count_consecutive_failures
  count_failing-pending [] acc w = refl
  count_failing-pending (n ∷ ns) acc w = count_failing-pending ns _ _ ∙ exec-pending env _ w

  count_recovered-pending :
      (ns : List Node) (count : ℕ) (w : World)
      → (count_recovered env m ns count w).1.pending ≡ w.pending
  unfolding count_recovered count_consecutive_successes
  count_recovered-pending [] count w = refl
  count_recovered-pending (n ∷ ns) count w = count_recovered-pending ns _ _ ∙ exec-pending env _ w

  raise_incident-Outcome :
      (ids : List String) (w : World) → Outcome env m w.pending (raise_incident env m ids w).1
  unfolding raise_incident
  raise_incident-Outcome ids w =
      subst (λ p. Outcome env m p (raise_incident env m ids w).1)
        (get_or_create_incident-pending env m.id w)
        (confirm_if_suspect-Outcome env m ids _ _ (get_or_create_incident-Handed env m.id w).1)

  resolve_if_recovered-Outcome :
      (ns : List Node) (total : ℕ) (i : Incident) (w : World)
      → IsHeld i w.db
      → i.monitor_id ≡ m.id
      → Outcome env m w.pending (resolve_if_recovered env m ns total i w).1
  unfolding resolve_if_recovered
  resolve_if_recovered-Outcome ns total i w held mine =
      subst (λ p. Outcome env m p (resolve_if_recovered env m ns total i w).1)
        (count_recovered-pending ns 0 w)
        (resolve_if_quorum-Outcome env m total i _ _
          (subst (IsHeld i) (sym (count_recovered-db env m ns 0 w)) held) mine)

  resolve_active-Outcome :
      (ns : List Node) (total : ℕ) (r : Result (Option Incident)) (w : World)
      → HoldsIf m.id w.db r
      → Outcome env m w.pending (resolve_active env m ns total r w).1
  unfolding resolve_active
  resolve_active-Outcome ns total (ok (some i)) w (held, mine) =
      resolve_if_recovered-Outcome ns total i w held mine
  resolve_active-Outcome ns total (ok none) w h = inl refl
  resolve_active-Outcome ns total (err e) w h = inl refl

  active_incident-pending : (w : World) → (get_active_incident env m.id w).1.pending ≡ w.pending
  unfolding get_active_incident
  active_incident-pending w = exec-pending env _ w

  check_recovery-Outcome :
      (ns : List Node) (total : ℕ) (w : World)
      → Outcome env m w.pending (check_recovery env m ns total w).1
  unfolding check_recovery
  check_recovery-Outcome ns total w =
      subst (λ p. Outcome env m p (check_recovery env m ns total w).1) (active_incident-pending w)
        (resolve_active-Outcome ns total _ _ (
          subst (λ d. HoldsIf m.id d (get_active_incident env m.id w).0)
            (sym (active_incident-db env m w)) (active_incident-HoldsIf env m w)))

  judge-Outcome :
      (ns : List Node) (total : ℕ) (acc : ℕ × List String) (w : World)
      → Outcome env m w.pending (judge env m ns total acc w).1
  unfolding judge
  judge-Outcome ns total (count, ids) w =
      elim (Bool-cases (evaluate_quorum m.quorum_type m.quorum_n count total)) [
        | inl e ↦ rw e (raise_incident-Outcome ids w)
        | inr e ↦ rw e (check_recovery-Outcome ns total w)
      ]

  -- One evaluation of a monitor, whatever statements fail, either starts no notification or starts
  -- one for each enabled channel, all about one incident of the monitor; an alert tells of a
  -- confirmed incident and a recovery of a resolved one, and the database then holds that incident
  -- as it is told.
  pub evaluate_monitor_consensus-Outcome :
      (ns : List Node) (total : ℕ) (w : World)
      → Outcome env m w.pending (evaluate_monitor_consensus env m ns total w).1
  unfolding evaluate_monitor_consensus
  evaluate_monitor_consensus-Outcome ns total w =
      subst (λ p. Outcome env m p (evaluate_monitor_consensus env m ns total w).1)
        (count_failing-pending ns (0, []) w) (judge-Outcome ns total _ _)
