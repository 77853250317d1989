-- ===== src/Consensus/Sound/Created.antt =====
-- GetOrCreateIncident: what it hands back is the monitor's active incident.
use ping_mesh.Prelude.{
  Elem-Permᴰ, Elem-head?, Elem-keep_if, Elem-append_one, Result-cases, Result, ok, err, ◌≤◌, ◌≡◌,
  refl, ap, subst, ℤ, String, true, [], ◌∷◌, ◌++◌, Option, none, some, arith, ◌==◌, eq_iff,
  Bool-cases, inl, inr, length, Result, ok, err,
}
use mathlib.Core.Option
use mathlib.Core.List.Permᴰ
use ping_mesh.Model.{Incident}
use ping_mesh.Db.{
  Db, IncidentRow, incident_key, monitor_key, has, incident_row, scan_incident,
  scan_incident-incident_row,
}
use ping_mesh.World.{Env, World, exec, now, new_uuid}
use ping_mesh.World.Frame.{After, counted}
use ping_mesh.Store.{
  get_active_incident, create_incident, newest_active, is_active, is_active_for, insert_incident,
}
use ping_mesh.Store.Active.{active_rows, newest_active-none, newest_active-some}
use ping_mesh.Store.Consistency.{insert_incident-IsConsistent}
use ping_mesh.Consensus.Lifecycle.{Evolves, Evolves-append}
use ping_mesh.Consensus.Rows.{active_count, active_count-append_one}
use ping_mesh.Consensus.Manager.{
  new_incident, create_suspect, found_or_created, get_or_create_incident,
}
use ping_mesh.Consensus.Sound.{Sound, Sound-refl, IsHeld}

parts_of_active :
    (m : String) (r : IncidentRow)
    → is_active_for m r ≡ true
    → (is_active r ≡ true) × (r.monitor_id ≡ m)
unfolding is_active_for
parts_of_active m r e = ground (arith, eq_iff r.monitor_id m)

-- What GetActiveIncident returns is held.
pub IsHeld-of_newest :
    (env : Env) (m : String) (db : Db) (r : IncidentRow)
    → newest_active env m db ≡ some r
    → IsHeld (scan_incident r) db × (r.monitor_id ≡ m)
unfolding newest_active
IsHeld-of_newest env m db r e =
    let found = newest_active-some env m db r e in
    let (active, same) = parts_of_active m r found.0 in
    let rows = active_rows m db in
    let sorted = env.incidents_newest_first.sort rows in
    (
      record {
        row = r;
        stored = Elem-keep_if r (is_active_for m) db.incidents (
            Elem-Permᴰ r (Permᴰ.symm (env.incidents_newest_first.sort_perm rows))
              (Elem-head? r sorted e));
        same = refl;
        active = active;
      },
      same,
    )

-- A new suspect, where the monitor has no active incident.
module _ (db : Db) (id m : String) (time : ℤ) (none_active : active_rows m db ≡ []) where
  one_more :
      (other : String)
      → active_count other db.incidents ≤ 1
      → active_count other (db.incidents ++ incident_row (new_incident id m time) ∷ []) ≤ 1
  unfolding is_active_for incident_row
  one_more other h = elim (Bool-cases (m == other)) [
    | inl same ↦
        let none_here : active_count other db.incidents ≡ 0 =
          subst (λ k. active_count k db.incidents ≡ 0) ((eq_iff m other).0 same)
            (ap length none_active) in
        ground (
          arith,
          active_count-append_one other db.incidents (incident_row (new_incident id m time)),
        )
    | inr different ↦
        ground (
          arith,
          active_count-append_one other db.incidents (incident_row (new_incident id m time)),
        )
  ]

  new_incident-Sound : After (Sound db) (insert_incident (new_incident id m time) db)
  unfolding insert_incident
  new_incident-Sound = elim (Bool-cases (has incident_key id db.incidents)) [
    | inl taken ↦ rw taken tt
    | inr fresh ↦ elim (Bool-cases (has monitor_key m db.monitors)) [
      | inl known ↦
          rw (fresh, known)
            λ o. (
              record {
                consistent =
                    rw (fresh, known) at
                      (insert_incident-IsConsistent (new_incident id m time) db o.consistent);
                one_active = λ other. one_more other (o.one_active other);
              },
              suspect_row,
            )
      | inr unknown ↦ rw (fresh, unknown) tt
    ]
  ]
    where
      suspect_row :
          Evolves db.incidents (db.incidents ++ incident_row (new_incident id m time) ∷ [])
      suspect_row =
          Evolves-append db.incidents (incident_row (new_incident id m time))
            (unfold incident_row in refl)

  new_incident-IsHeld :
      After
        (λ db'. IsHeld (new_incident id m time) db')
        (insert_incident (new_incident id m time) db)
  unfolding insert_incident is_active
  new_incident-IsHeld = elim (Bool-cases (has incident_key id db.incidents)) [
    | inl taken ↦ rw taken tt
    | inr fresh ↦ elim (Bool-cases (has monitor_key m db.monitors)) [
      | inl known ↦
          rw (fresh, known)
            (record {
              row = incident_row (new_incident id m time);
              stored = Elem-append_one (incident_row (new_incident id m time)) db.incidents;
              same = scan_incident-incident_row (new_incident id m time);
              active = unfold incident_row in refl;
            })
      | inr unknown ↦ rw (fresh, unknown) tt
    ]
  ]

-- What GetOrCreateIncident hands back: an error, or a held incident of the monitor.
abbrev pub Hands : String → Db → Result Incident → Type 0
Hands m db (err e) = Unit
Hands m db (ok i) = IsHeld i db × (i.monitor_id ≡ m)

abbrev pub Handed : String → Db → Result Incident × World → Type 0
Handed m db (r, w) = Sound db w.db × Hands m w.db r

module _ (env : Env) (m : String) where
  create_suspect-Handed :
      (w : World) → active_rows m w.db ≡ [] → Handed m w.db (create_suspect env m w)
  unfolding create_suspect now new_uuid create_incident exec
  create_suspect-Handed w none_active = elim (Bool-cases (env.faults w.statements)) [
    | inl fault ↦ rw fault (Sound-refl w.db, tt)
    | inr quiet ↦ rw quiet (elim (Result-cases (insert_incident fresh w.db)) [
      | inl (db, s) ↦ rw s (
        rw s at (new_incident-Sound w.db fresh.id m fresh.started_at none_active),
        (rw s at (new_incident-IsHeld w.db fresh.id m fresh.started_at none_active), refl),
      )
      | inr (x, s) ↦ rw s (Sound-refl w.db, tt)
    ])
  ]
    where
      fresh : Incident
      fresh = new_incident (env.uuids w.drawn) m (env.clock w.readings)

  found-Handed :
      (w : World) (o : Option IncidentRow)
      → newest_active env m w.db ≡ o
      → Handed m w.db (found_or_created env m (Option.map scan_incident o) (counted w))
  unfolding found_or_created scan_incident
  found-Handed w none e = create_suspect-Handed (counted w) (newest_active-none env m w.db e)
  found-Handed w (some r) e = (Sound-refl w.db, IsHeld-of_newest env m w.db r e)

  -- Whatever fails, the database stays in order, and an incident that is returned is the monitor's
  -- active incident.
  pub get_or_create_incident-Handed : (w : World) → Handed m w.db (get_or_create_incident env m w)
  unfolding get_or_create_incident get_active_incident exec
  get_or_create_incident-Handed w = elim (Bool-cases (env.faults w.statements)) [
    | inl fault ↦ rw fault (Sound-refl w.db, tt)
    | inr quiet ↦ rw quiet (found-Handed w (newest_active env m w.db) refl)
  ]
