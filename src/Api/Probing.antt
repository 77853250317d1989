-- ===== src/Api/Probing.antt =====
-- internal/api/cli_handlers.go: which peers probePeers reports on, and what it says of them.
use ping_mesh.Prelude.{
  ◌≡◌, refl, ◌↔◌, inl, inr, ℕ, suc, ℤ, List, [], ◌∷◌, String, true, false, Bool-cases, Result, ok,
  err, none, some, keep_if, Bool, ◌==◌, ◌&&◌, ◌||◌, not,
}
use ping_mesh.Model.{Config, Node, PeerStatus}
use ping_mesh.World.{Env, World, exec, settle}
use ping_mesh.Checker.{Sprintf}
use ping_mesh.Store.{list_nodes}
use ping_mesh.Api.Reply.{json, status_ok}
use ping_mesh.Api.Url.{Query}
use ping_mesh.Api.Reports.{Dialer, is_probed, reached, probe_all, probe_peers, handle_test_peer}

-- The status names the node, and is reachable exactly if its dial was answered.
abbrev pub Describes : Dialer → Node → PeerStatus → Type 0
Describes dial n p =
    (p.node_id ≡ n.id)
    × (p.address ≡ n.address)
    × (k : ℕ) × ((p.reachable ≡ true) ↔ ((latency : ℤ) × (dial k n.address ≡ ok latency)))

-- One status for each node, in the same order.
abbrev pub DescribesAll : Dialer → List Node → List PeerStatus → Type 0
DescribesAll dial [] [] = Unit
DescribesAll dial [] (p ∷ ps) = ⊥
DescribesAll dial (n ∷ ns) [] = ⊥
DescribesAll dial (n ∷ ns) (p ∷ ps) = Describes dial n p × DescribesAll dial ns ps

-- The nodes that the answer is about.
abbrev pub wanted : Config → String → Node → Bool
wanted config name n = not (n.id == config.node_id) && ((name == "") || (n.id == name))

module _ (sprintf : Sprintf) (config : Config) (filter_node : String) (dial : Dialer) where
  reached-Describes :
      (n : Node) (k : ℕ) (r : Result ℤ)
      → dial k n.address ≡ r
      → Describes dial n (reached sprintf n r)
  reached-Describes n k (ok latency) e = (refl, refl, k, (λ t. (latency, e), λ a. refl))
  reached-Describes n k (err x) e = (refl, refl, k, (λ t. absurd (cc), λ (l, a). absurd (cc)))

  is_probed-wanted : (n : Node) → is_probed config filter_node n ≡ wanted config filter_node n
  is_probed-wanted n = elim (Bool-cases (filter_node == "")) [ inl e ↦ rw e | inr e ↦ rw e ]

  probe_all-DescribesAll :
      (k : ℕ) (ns : List Node)
      → DescribesAll dial
          (keep_if (wanted config filter_node) ns)
          (probe_all sprintf config filter_node dial k ns)
  unfolding probe_all
  probe_all-DescribesAll k [] = tt
  probe_all-DescribesAll k (n ∷ ns) = elim (Bool-cases (wanted config filter_node n)) [
    | inl e ↦
        rw (is_probed-wanted n, e)
          (reached-Describes n k (dial k n.address) refl, probe_all-DescribesAll (suc k) ns)
    | inr e ↦ rw (is_probed-wanted n, e) (probe_all-DescribesAll (suc k) ns)
  ]

-- The test of the peers is always answered with success. Where the statement does not fail, the
-- answer has one status for each stored node but this one, or for that one of them that the query
-- names, in the order of the nodes, and it is reachable exactly if its dial was answered; where
-- the statement fails, the answer is null.
pub handle_test_peer_lem :
    (sprintf : Sprintf) (env : Env) (config : Config) (dial : Dialer) (query : Query) (w : World)
    → (env.faults w.statements ≡ false
        → (ps : List PeerStatus) × ((handle_test_peer sprintf env config dial query w).0
            ≡ json status_ok (some ps))
          × DescribesAll dial
              (keep_if (wanted config (query "node")) (env.nodes_by_age.sort w.db.nodes))
              ps)
      × (env.faults w.statements ≡ true
          → (handle_test_peer sprintf env config dial query w).0 ≡ json status_ok none)
unfolding handle_test_peer probe_peers list_nodes exec settle
handle_test_peer_lem sprintf env config dial query w = (
  λ fine. (
    probe_all sprintf config (query "node") dial 0 (env.nodes_by_age.sort w.db.nodes),
    rw fine,
    probe_all-DescribesAll sprintf config (query "node") dial 0 (env.nodes_by_age.sort w.db.nodes),
  ),
  λ bad. rw bad,
)
