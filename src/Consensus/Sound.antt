-- ===== src/Consensus/Sound.antt =====
-- What GetOrCreateIncident, ConfirmIncident and ResolveIncident keep of the database: every monitor
-- has at most one active incident, and incidents live on by their steps.
pub mod Held
pub mod Created
pub mod Stored
use ping_mesh.Prelude.{Elem, ◌≤◌, ◌≡◌, String, true}
use ping_mesh.Model.{Incident}
use ping_mesh.Db.{Db, IncidentRow, IsConsistent, scan_incident}
use ping_mesh.Store.{is_active}
use ping_mesh.Consensus.Lifecycle.{Evolves, Evolves-refl, Evolves-trans}
use ping_mesh.Consensus.Rows.{active_count}

-- The keys and references hold, and no monitor has two active incidents.
pub record IsOrderly (db : Db) : Type 0 where
  pub consistent : IsConsistent db
  pub one_active : (m : String) → active_count m db.incidents ≤ 1

-- From an orderly database, an orderly one whose incidents have only lived on.
abbrev pub Sound : Db → Db → Type 0
Sound db db' = IsOrderly db → IsOrderly db' × Evolves db.incidents db'.incidents

pub Sound-refl : (db : Db) → Sound db db
Sound-refl db o = (o, Evolves-refl db.incidents)

pub Sound-trans : (a b c : Db) → Sound a b → Sound b c → Sound a c
Sound-trans a b c f g o =
    let (p, e) = f o in
    let (q, h) = g p in (q, Evolves-trans a.incidents b.incidents c.incidents e h)

-- The incident is that of an active row.
pub record IsHeld (i : Incident) (db : Db) : Type 0 where
  pub row : IncidentRow
  pub stored : Elem row db.incidents
  pub same : scan_incident row ≡ i
  pub active : is_active row ≡ true
