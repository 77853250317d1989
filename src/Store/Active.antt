-- ===== src/Store/Active.antt =====
-- GetActiveIncident: the newest incident of a monitor that is not resolved.
use ping_mesh.Prelude.{
  map, Elem, Elem-Permᴰ, Elem-head?, Elem-map, ◌≡◌, ◌≢◌, refl, sym, ap, ◌∙◌, subst, String, Bool,
  true, false, List, [], ◌∷◌, Option, none, some, arith, ◌⊎◌, inl, inr, eq_iff, All, All-Permᴰ,
  All-head?, keep_if, keep_if-All, head?, length, length-Permᴰ, err, engine_fault, ok-injective, ok,
  err, Bool-cases, Sorter, IsOrdered, ◌≤ℤ◌, leb→le, All-map, nil_of_length, nil_of_head?,
}
use mathlib.Core.Option
use mathlib.Core.List.Permᴰ
use ping_mesh.Model.{Incident, incident_resolved}
use ping_mesh.Db.{Db, IncidentRow, scan_incident}
use ping_mesh.World.{Env, World, exec, incident_le}
use ping_mesh.Store.Incidents.{is_active_for, newest_active, get_active_incident}

-- The active incidents of a monitor.
abbrev pub active_rows : String → Db → List IncidentRow
active_rows monitor_id db = keep_if (is_active_for monitor_id) db.incidents

module _ {A : Type 0} {le : A → A → Bool} (s : Sorter le) where
  pub head?-sort_nil : (xs : List A) → xs ≡ [] → head? (s.sort xs) ≡ none
  head?-sort_nil xs e =
      ap head? (nil_of_length (s.sort xs) (sym (length-Permᴰ (s.sort_perm xs)) ∙ ap length e))

  -- The first of the sorted rows comes before all of them.
  pub head?-sort_le :
      (xs : List A) {x : A} → head? (s.sort xs) ≡ some x → All (λ y. (le x y ≡ true) ⊎ (x ≡ y)) xs
  head?-sort_le xs {x} e =
      All-Permᴰ _ (Permᴰ.symm (s.sort_perm xs)) (first (s.sort xs) e (s.sort_ordered xs))
    where
      first :
          (ys : List A)
          → head? ys ≡ some x
          → IsOrdered le ys
          → All (λ y. (le x y ≡ true) ⊎ (x ≡ y)) ys
      first [] e o = tt
      first (y ∷ ys) e o =
          let same : y ≡ x = cc in
          subst (λ z. All (λ v. (le z v ≡ true) ⊎ (z ≡ v)) (y ∷ ys)) same
            (inr refl, All-map (λ v. le y v ≡ true) _ (λ v h. inl h) ys o.0)

  pub head?-sort_none : (xs : List A) → head? (s.sort xs) ≡ none → xs ≡ []
  head?-sort_none xs e =
      nil_of_length xs (length-Permᴰ (s.sort_perm xs) ∙ ap length (nil_of_head? (s.sort xs) e))

no_newer : (i j : IncidentRow) → (incident_le i j ≡ true) ⊎ (i ≡ j) → j.created_at ≤ℤ i.created_at
no_newer i j (inl h) = omega (arith, leb→le _ _ h)
no_newer i j (inr e) = rw e (omega arith)

is_active_for_lem :
    (monitor_id : String) (i : IncidentRow)
    → is_active_for monitor_id i ≡ true
    → (i.monitor_id ≡ monitor_id) × (i.status ≢ incident_resolved)
unfolding is_active_for
is_active_for_lem monitor_id i h =
    ground (arith, eq_iff i.monitor_id monitor_id, eq_iff i.status incident_resolved)

-- The answer: a stored active incident of the monitor that no active incident is newer than, or nil, and
-- then the monitor has no active incident.
abbrev pub IsAnswer : String → Db → Option Incident → Type 0
IsAnswer monitor_id db none = active_rows monitor_id db ≡ []
IsAnswer monitor_id db (some i) =
    Elem i (map scan_incident (active_rows monitor_id db))
    × (i.monitor_id ≡ monitor_id)
    × (i.status ≢ incident_resolved)
    × All (λ j. j.created_at ≤ℤ i.created_at) (active_rows monitor_id db)

module _ (env : Env) (monitor_id : String) where
  active_fault :
      (w : World)
      → env.faults w.statements ≡ true
      → (get_active_incident env monitor_id w).0 ≡ err engine_fault
  unfolding get_active_incident exec
  active_fault w e = rw e

  active_found :
      (w : World)
      → env.faults w.statements ≡ false
      → (get_active_incident env monitor_id w).0
        ≡ ok (Option.map scan_incident (newest_active env monitor_id w.db))
  unfolding get_active_incident exec
  active_found w e = rw e

  -- Nothing is found exactly where the monitor has no active incident.
  pub newest_active-none :
      (db : Db) → newest_active env monitor_id db ≡ none → active_rows monitor_id db ≡ []
  unfolding newest_active
  newest_active-none db e = head?-sort_none env.incidents_newest_first (active_rows monitor_id db) e

  pub newest_active_of_nil :
      (db : Db) → active_rows monitor_id db ≡ [] → newest_active env monitor_id db ≡ none
  unfolding newest_active
  newest_active_of_nil db e =
      head?-sort_nil env.incidents_newest_first (active_rows monitor_id db) e

  -- What is found is an active incident of the monitor, and none of those is newer.
  pub newest_active-some :
      (db : Db) (i : IncidentRow)
      → newest_active env monitor_id db ≡ some i
      → (is_active_for monitor_id i ≡ true)
        × All (λ j. j.created_at ≤ℤ i.created_at) (active_rows monitor_id db)
  unfolding newest_active
  newest_active-some db i e = (
    All-head? _ _ e (
        All-Permᴰ _ (env.incidents_newest_first.sort_perm (active_rows monitor_id db))
          (keep_if-All (is_active_for monitor_id) db.incidents)),
    All-map _ _ (λ j h. no_newer i j h) (active_rows monitor_id db)
        (head?-sort_le env.incidents_newest_first (active_rows monitor_id db) e),
  )

  newest_active-Elem :
      (db : Db) (i : IncidentRow)
      → newest_active env monitor_id db ≡ some i
      → Elem i (active_rows monitor_id db)
  unfolding newest_active
  newest_active-Elem db i e =
      Elem-Permᴰ i (Permᴰ.symm (env.incidents_newest_first.sort_perm (active_rows monitor_id db)))
        (Elem-head? i _ e)

  IsAnswer-of_row :
      (db : Db) (o : Option IncidentRow)
      → newest_active env monitor_id db ≡ o
      → IsAnswer monitor_id db (Option.map scan_incident o)
  unfolding scan_incident
  IsAnswer-of_row db none e = newest_active-none db e
  IsAnswer-of_row db (some i) e =
      let (active, newest) = newest_active-some db i e in
      let stored = newest_active-Elem db i e in
      let (same, open_still) = is_active_for_lem monitor_id i active in
      (Elem-map scan_incident i (active_rows monitor_id db) stored, same, open_still, newest)

  -- Where GetActiveIncident does not fail: if it returns nil, the monitor has no active incident;
  -- if it returns an incident, that is the incident of a stored active row of the monitor, it is
  -- not resolved, and no active incident of the monitor is newer.
  pub get_active_incident_lem :
      (w : World) (o : Option Incident)
      → (get_active_incident env monitor_id w).0 ≡ ok o
      → IsAnswer monitor_id w.db o
  get_active_incident_lem w o e = elim (Bool-cases (env.faults w.statements)) [
    | inl f ↦ cc (active_fault w f)
    | inr quiet ↦
        subst (IsAnswer monitor_id w.db) (ok-injective (sym (active_found w quiet) ∙ e))
          (IsAnswer-of_row w.db (newest_active env monitor_id w.db) refl)
  ]
