-- ===== src/Cluster/Offline.antt =====
-- DetectOfflineNodes: which nodes it marks.
use ping_mesh.Prelude.{
  ◌≡◌, ◌∙◌, refl, sym, ap, ap₂, subst, ℕ, ℤ, sub_64, true, false, List, [], ◌∷◌, map, arith, ◌==◌,
  eq_iff, eq_refl, if◌then◌else◌, All, All-Permᴰ, Bool-cases, inl, inr,
}
use mathlib.Core.List.{Permᴰ}
use ping_mesh.Model.{Node, node_offline}
use ping_mesh.Db.{IsUnique, has, update, node_key}
use ping_mesh.Db.Keys.{has_self, has-Permᴰ, rows_by_key}
use ping_mesh.World.{Env, World, exec, now, settle}
use ping_mesh.Store.{list_nodes, update_node_status, set_node_status}
use ping_mesh.Cluster.Manager.{is_overdue, mark_offline, mark_overdue, detect_offline_nodes}

-- The node as it should be after the cutoff.
abbrev pub checked : ℤ → Node → Node
checked cutoff n = if is_overdue cutoff n then record n { status = node_offline } else n

-- A row after the update for one node, and for several.
mark_row : ℤ → Node → Node → Node
mark_row cutoff n r =
    if is_overdue cutoff n
    then (if r.id == n.id then record r { status = node_offline; last_seen = n.last_seen } else r)
    else r

mark_rows : ℤ → List Node → Node → Node
mark_rows cutoff [] r = r
mark_rows cutoff (n ∷ ns) r = mark_rows cutoff ns (mark_row cutoff n r)

row_same :
    (s r n : Node)
    → s ≡ record r { status = node_offline }
    → n ≡ r
    → record s { status = node_offline; last_seen = n.last_seen } ≡ s
row_same s r n p e =
    ap (λ (x : Node). record x { status = node_offline; last_seen = n.last_seen }) p
    ∙ ap (λ (x : Node). record r { status = node_offline; last_seen = x.last_seen }) e
    ∙ sym p

module _ (cutoff : ℤ) where
  -- A row that the nodes leave as it is, since all that have its id are the node itself.
  kept :
      (r s : Node) (ns : List Node)
      → s.id ≡ r.id
      → All (λ n. (r.id == n.id) ≡ true → n ≡ r) ns
      → (is_overdue cutoff r ≡ true → s ≡ record r { status = node_offline })
      → mark_rows cutoff ns s ≡ s
  unfolding mark_rows mark_row
  kept r s [] e h q = refl
  kept r s (n ∷ ns) e h q = elim (Bool-cases (is_overdue cutoff n)) [
    | inl o ↦ elim (Bool-cases (s.id == n.id)) [
      | inl d ↦
          let same : n ≡ r = h.0 (subst (λ id. (id == n.id) ≡ true) e d) in
          rw (o, d)
            (ap (mark_rows cutoff ns)
                (row_same s r n (q (subst (λ x. is_overdue cutoff x ≡ true) same o)) same)
              ∙ kept r s ns e h.1 q)
      | inr d ↦ rw (o, d) (kept r s ns e h.1 q)
    ]
    | inr o ↦ rw o (kept r s ns e h.1 q)
  ]

  other_row : (n r : Node) → (r.id == n.id) ≡ false → mark_row cutoff n r ≡ r
  unfolding mark_row
  other_row n r d = elim (Bool-cases (is_overdue cutoff n)) [ inl o ↦ rw (o, d) | inr o ↦ rw o ]

  own_row : (n r : Node) → n ≡ r → mark_row cutoff n r ≡ checked cutoff r
  unfolding mark_row
  own_row n r e =
      subst (λ x. mark_row cutoff x r ≡ checked cutoff r) (sym e)
        (elim (Bool-cases (is_overdue cutoff r)) [ inl o ↦ rw (o, eq_refl) | inr o ↦ rw o ])

  checked_id : (r : Node) → (checked cutoff r).id ≡ r.id
  checked_id r = elim (Bool-cases (is_overdue cutoff r)) [ inl o ↦ rw o | inr o ↦ rw o ]

  marked :
      (r : Node) (ns : List Node)
      → All (λ n. (r.id == n.id) ≡ true → n ≡ r) ns
      → has node_key r.id ns ≡ true
      → mark_rows cutoff ns r ≡ checked cutoff r
  unfolding mark_rows has
  marked r [] h e = ground arith
  marked r (n ∷ ns) h e = elim (Bool-cases (r.id == n.id)) [
    | inl d ↦
        ap (mark_rows cutoff ns) (own_row n r (h.0 d))
        ∙ kept r (checked cutoff r) ns (checked_id r) h.1 (λ o. rw o)
    | inr d ↦
        ap (mark_rows cutoff ns) (other_row n r d)
        ∙ marked r ns h.1 (ground (arith, eq_iff n.id r.id, eq_iff r.id n.id))
  ]

  update-mark_row :
      (n : Node) (rs : List Node)
      → is_overdue cutoff n ≡ true
      → update node_key n.id (λ r. record r { status = node_offline; last_seen = n.last_seen }) rs
        ≡ map (mark_row cutoff n) rs
  unfolding update mark_row
  update-mark_row n [] o = refl
  update-mark_row n (r ∷ rs) o =
      ap₂ (λ (x : Node) (xs : List Node). x ∷ xs) (rw o refl) (update-mark_row n rs o)

map_by : (f g : Node → Node) (rs : List Node) → All (λ r. f r ≡ g r) rs → map f rs ≡ map g rs
map_by f g [] h = refl
map_by f g (r ∷ rs) h = ap₂ (λ (x : Node) (xs : List Node). x ∷ xs) h.0 (map_by f g rs h.1)

map-append_step :
    (cutoff : ℤ) (n : Node) (ns rs : List Node)
    → map (mark_rows cutoff ns) (map (mark_row cutoff n) rs) ≡ map (mark_rows cutoff (n ∷ ns)) rs
unfolding mark_rows
map-append_step cutoff n ns [] = refl
map-append_step cutoff n ns (r ∷ rs) =
    ap (λ (xs : List Node). mark_rows cutoff ns (mark_row cutoff n r) ∷ xs)
      (map-append_step cutoff n ns rs)

map-nothing : (cutoff : ℤ) (rs : List Node) → map (mark_rows cutoff []) rs ≡ rs
unfolding mark_rows
map-nothing cutoff [] = refl
map-nothing cutoff (r ∷ rs) = ap (λ (xs : List Node). r ∷ xs) (map-nothing cutoff rs)

all_same :
    (cutoff : ℤ) (n : Node) (rs : List Node)
    → is_overdue cutoff n ≡ false
    → map (mark_row cutoff n) rs ≡ rs
unfolding mark_row
all_same cutoff n [] o = refl
all_same cutoff n (r ∷ rs) o =
    ap₂ (λ (x : Node) (xs : List Node). x ∷ xs) (rw o refl) (all_same cutoff n rs o)

module _ (env : Env) (quiet : (k : ℕ) → env.faults k ≡ false) where
  mark_offline-nodes :
      (n : Node) (w : World)
      → (mark_offline env n w).1.db.nodes
        ≡ update node_key n.id
            (λ r. record r { status = node_offline; last_seen = n.last_seen })
            w.db.nodes
  unfolding mark_offline update_node_status exec set_node_status settle
  mark_offline-nodes n w = rw (quiet w.statements)

  mark_overdue-nodes :
      (cutoff : ℤ) (ns : List Node) (w : World)
      → (mark_overdue env cutoff ns w).1.db.nodes ≡ map (mark_rows cutoff ns) w.db.nodes
  unfolding mark_overdue
  mark_overdue-nodes cutoff [] w = sym (map-nothing cutoff w.db.nodes)
  mark_overdue-nodes cutoff (n ∷ ns) w = elim (Bool-cases (is_overdue cutoff n)) [
    | inl o ↦ rw o (
        mark_overdue-nodes cutoff ns (mark_offline env n w).1
        ∙ ap (map (mark_rows cutoff ns))
            (mark_offline-nodes n w ∙ update-mark_row cutoff n w.db.nodes o)
        ∙ map-append_step cutoff n ns w.db.nodes)
    | inr o ↦ rw o (
        mark_overdue-nodes cutoff ns w
        ∙ ap (map (mark_rows cutoff ns)) (sym (all_same cutoff n w.db.nodes o))
        ∙ map-append_step cutoff n ns w.db.nodes)
  ]

  -- The nodes in any order mark every row once.
  each_checked :
      (cutoff : ℤ) (rs ns : List Node)
      → Permᴰ rs ns
      → IsUnique node_key rs
      → map (mark_rows cutoff ns) rs ≡ map (checked cutoff) rs
  each_checked cutoff rs ns p u =
      map_by (mark_rows cutoff ns) (checked cutoff) rs
        (go rs (rows_by_key node_key rs u) (has_self node_key rs))
    where
      go :
          (ys : List Node)
          → All (λ r. All (λ n. (r.id == n.id) ≡ true → n ≡ r) rs) ys
          → All (λ r. has node_key r.id rs ≡ true) ys
          → All (λ r. mark_rows cutoff ns r ≡ checked cutoff r) ys
      go [] h k = tt
      go (y ∷ ys) h k = (
        marked cutoff y ns (All-Permᴰ _ p h.0) (sym (has-Permᴰ node_key y.id p) ∙ k.0),
        go ys h.1 k.1,
      )

  -- Where no statement fails and the ids of the nodes are unique, DetectOfflineNodes marks as
  -- offline exactly the nodes that are online and were last seen before the cutoff, and leaves all
  -- else of every node as it was.
  pub detect_offline_nodes_lem :
      (timeout_ms : ℤ) (w : World)
      → IsUnique node_key w.db.nodes
      → (detect_offline_nodes env timeout_ms w).1.db.nodes
        ≡ map (checked (sub_64 (env.clock w.readings) timeout_ms)) w.db.nodes
  unfolding detect_offline_nodes list_nodes exec now settle
  detect_offline_nodes_lem timeout_ms w u =
      let cutoff : ℤ = sub_64 (env.clock w.readings) timeout_ms in
      let ns = env.nodes_by_age.sort w.db.nodes in
      rw (quiet w.statements) (
        mark_overdue-nodes cutoff ns _
        ∙ each_checked cutoff w.db.nodes ns (env.nodes_by_age.sort_perm w.db.nodes) u)
