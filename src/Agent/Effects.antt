-- ===== src/Agent/Effects.antt =====
-- The parts of evaluateConsensus that leave the database as it is: the counts and the notifications.
pub mod Evolution
use ping_mesh.Prelude.{◌≡◌, ◌∙◌, refl, ap, ℕ, String, List, [], ◌∷◌, Result, ok, err}
use ping_mesh.Model.{Node, AlertChannel, Monitor, Incident}
use ping_mesh.World.{Env, World}
use ping_mesh.World.Frame.{exec-select}
use ping_mesh.Store.{
  count_consecutive_failures, count_consecutive_successes, list_enabled_alert_channels,
}
use ping_mesh.Alert.{dispatch, notify, spawn}
use ping_mesh.Agent.Evaluate.{count_failing, count_recovered}

module _ (env : Env) where
  pub notify-db :
      (i : Incident) (m : Monitor) (event : String) (r : Result (List AlertChannel)) (w : World)
      → (notify i m event r w).1.db ≡ w.db
  unfolding notify spawn
  notify-db i m event (ok cs) w = refl
  notify-db i m event (err e) w = refl

  pub dispatch-db :
      (i : Incident) (m : Monitor) (event : String) (w : World)
      → (dispatch env i m event w).1.db ≡ w.db
  unfolding dispatch list_enabled_alert_channels
  dispatch-db i m event w = notify-db i m event _ _ ∙ ap (λ (v : World). v.db) (exec-select env _ w)

  pub count_failing-db :
      (m : Monitor) (ns : List Node) (acc : ℕ × List String) (w : World)
      → (count_failing env m ns acc w).1.db ≡ w.db
  unfolding count_failing count_consecutive_failures
  count_failing-db m [] acc w = refl
  count_failing-db m (n ∷ ns) acc w =
      count_failing-db m ns _ _ ∙ ap (λ (v : World). v.db) (exec-select env _ w)

  pub count_recovered-db :
      (m : Monitor) (ns : List Node) (count : ℕ) (w : World)
      → (count_recovered env m ns count w).1.db ≡ w.db
  unfolding count_recovered count_consecutive_successes
  count_recovered-db m [] count w = refl
  count_recovered-db m (n ∷ ns) count w =
      count_recovered-db m ns _ _ ∙ ap (λ (v : World). v.db) (exec-select env _ w)
