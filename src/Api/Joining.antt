-- ===== src/Api/Joining.antt =====
-- POST /api/v1/peer/join: one secret lets one node in.
use ping_mesh.Prelude.{
  ◌≡◌, refl, sym, subst, String, List, Bool, true, false, Result, ok, err, Bool-cases, inl, inr,
  ◌==◌,
}
use ping_mesh.Model.{JoinRequest, Config, role_coordinator}
use ping_mesh.Db.{IsConsistent}
use ping_mesh.World.{Env, World, now, new_uuid}
use ping_mesh.World.Frame.{exec-write}
use ping_mesh.Store.{create_node, insert_node, validate_and_consume_token}
use ping_mesh.Store.Calls.{Call, run}
use ping_mesh.Store.SingleUse.{
  SpentIn, insert_node-Keeps, run-keeps, validate-spends, spent-refused,
}
use ping_mesh.Cluster.{Codecs, validate_join_token}
use ping_mesh.Api.Reply.{Reply, json, failure}
use ping_mesh.Api.Peer.{Platform, register, admit, join_with, handle_peer_join}

abbrev pub Succeeds : {A : Type 0} → Reply A → Type 0
Succeeds (json status body) = Unit
Succeeds (failure status e) = ⊥

module _ (env : Env) (codecs : Codecs) (platform : Platform) (config : Config) where
  module _ (remote hash : String) where
    register-keeps :
        (req : JoinRequest) (id : String) (cert : Result (String × String)) (ca : Result String)
        (v : World)
        → SpentIn hash v.db
        → SpentIn hash (register env codecs platform config remote req id cert ca v).1.db
    unfolding register now create_node
    register-keeps req id (err e) ca v s = s
    register-keeps req id (ok pair) (err e) v s = s
    register-keeps req id (ok pair) (ok ca) v s =
        exec-write env (SpentIn hash) (insert_node _) (now env v).1
          (insert_node-Keeps _ hash v.db s) s

    admit-keeps :
        (req : JoinRequest) (valid : Result Bool) (v : World)
        → (valid ≡ ok true → SpentIn hash v.db)
        → Succeeds (admit env codecs platform config remote req valid v).0
        → SpentIn hash (admit env codecs platform config remote req valid v).1.db
    unfolding admit new_uuid
    admit-keeps req (err e) v s done = elim done [ ]
    admit-keeps req (ok true) v s done = register-keeps req _ _ _ _ (s refl)
    admit-keeps req (ok false) v s done = elim done [ ]

    admit-valid :
        (req : JoinRequest) (valid : Result Bool) (v : World)
        → Succeeds (admit env codecs platform config remote req valid v).0
        → valid ≡ ok true
    unfolding admit
    admit-valid req (err e) v done = elim done [ ]
    admit-valid req (ok true) v done = refl
    admit-valid req (ok false) v done = elim done [ ]

  join-spends :
      (remote : String) (req : JoinRequest) (w : World)
      → IsConsistent w.db
      → Succeeds (handle_peer_join env codecs platform config remote (ok req) w).0
      → SpentIn
          (codecs.hash req.secret)
          (handle_peer_join env codecs platform config remote (ok req) w).1.db
  unfolding handle_peer_join join_with validate_join_token
  join-spends remote req w c = elim (Bool-cases (config.role == role_coordinator)) [
    | inl e ↦
        let v = validate_and_consume_token env (codecs.hash req.secret) w in
        rw e λ done.
          admit-keeps remote (codecs.hash req.secret) req v.0 v.1
            (λ valid. validate-spends env (codecs.hash req.secret) w v.1 c (λ i. (valid i, v.1)))
            done
    | inr e ↦ rw e λ done. elim done [ ]
  ]

  join-refused :
      (remote : String) (req : JoinRequest) (w : World)
      → SpentIn (codecs.hash req.secret) w.db
      → ¬ Succeeds (handle_peer_join env codecs platform config remote (ok req) w).0
  unfolding handle_peer_join join_with validate_join_token
  join-refused remote req w s = elim (Bool-cases (config.role == role_coordinator)) [
    | inl e ↦
        let v = validate_and_consume_token env (codecs.hash req.secret) w in
        rw e λ done.
          spent-refused env (codecs.hash req.secret) w s (admit-valid remote "" req v.0 v.1 done)
    | inr e ↦ rw e λ done. done
  ]

  -- From a consistent database, once a join request has been let in, no later request with a
  -- secret of the same hash is, from whatever address and after whatever calls of the store in
  -- between.
  pub join_once :
      (remote remote' : String) (req req' : JoinRequest) (cs : List Call) (w : World)
      → IsConsistent w.db
      → codecs.hash req'.secret ≡ codecs.hash req.secret
      → Succeeds (handle_peer_join env codecs platform config remote (ok req) w).0
      → let after = (handle_peer_join env codecs platform config remote (ok req) w).1 in
        ¬ Succeeds
          (handle_peer_join env codecs platform config remote' (ok req') (run env cs after)).0
  join_once remote remote' req req' cs w c same done = join-refused remote' req' _ (
      subst
        (λ h.
          SpentIn h
            (run env cs (handle_peer_join env codecs platform config remote (ok req) w).1).db)
        (sym same) (run-keeps env (codecs.hash req.secret) cs _ (join-spends remote req w c done)))
