-- ===== src/Scheduler/Stored.antt =====
-- internal/agent/scheduler.go: what a check leaves in the database.
use ping_mesh.Prelude.{
  ◌≡◌, ◌⊎◌, inl, inr, refl, ap, ◌∙◌, ℕ, suc, String, true, false, List, [], ◌∷◌, ◌++◌, map, Option,
  none, some, Error, Bool-cases, Elem,
}
use mathlib.Core.Option
use ping_mesh.Model.{Monitor, CheckResult}
use ping_mesh.Db.{
  Db, MonitorRow, ResultRow, has-eq_find, find, has, node_key, monitor_key, scan_monitor,
  result_row, scan_result, scan_result-result_row,
}
use ping_mesh.World.{Env, World, exec, now}
use ping_mesh.Store.{get_monitor, insert_check_result, insert_result}
use ping_mesh.Checker.{Checker, Network, check, type_of}
use ping_mesh.Checker.Verdicts.Types.{check_types, check_types-cases, registry_lem}
use ping_mesh.Scheduler.Check.{pushed, check_found, run_check}
use ping_mesh.Scheduler.Reading.{IsReading, reading, reading-IsReading}

-- The monitor with an id, as it is stored.
abbrev pub monitor_of : String → Db → Option Monitor
monitor_of id db = Option.map scan_monitor (find monitor_key id db.monitors)

-- The results that are stored, as they are read back.
abbrev pub results : Db → List CheckResult
results db = map scan_result db.check_results

-- One result comes behind the others, with the next number, and nothing else changes.
abbrev pub IsAdded : CheckResult → Db → Db → Type 0
IsAdded r db db' =
    (results db' ≡ results db ++ record r { id = db.next_result_id } ∷ [])
    × (db'
        ≡ record db { check_results = db'.check_results; next_result_id = suc db.next_result_id })

Option-cases : (o : Option Monitor) → (o ≡ none) ⊎ ((m : Monitor) × (o ≡ some m))
Option-cases none = inl refl
Option-cases (some m) = inr (m, refl)

map-append_one :
    (f : ResultRow → CheckResult) (rs : List ResultRow) (r : ResultRow)
    → map f (rs ++ r ∷ []) ≡ map f rs ++ f r ∷ []
map-append_one f [] r = refl
map-append_one f (x ∷ rs) r = ap (λ (l : List CheckResult). f x ∷ l) (map-append_one f rs r)

-- A result without details is read back as it was.
pub append-IsAdded :
    (r : CheckResult) (db : Db)
    → r.details ≡ none
    → IsAdded r db (record db {
      check_results = db.check_results ++ result_row db.next_result_id r ∷ [];
      next_result_id = suc db.next_result_id;
    })
append-IsAdded r db e = (
  map-append_one scan_result db.check_results (result_row db.next_result_id r)
      ∙ ap (λ (x : CheckResult). results db ++ x ∷ [])
          (scan_result-result_row db.next_result_id r (λ h. cc (h, e))),
  refl,
)

has-stored :
    (id : String) (db : Db) (m : Monitor)
    → monitor_of id db ≡ some m
    → has monitor_key id db.monitors ≡ true
has-stored id db m e =
    has-eq_find monitor_key id db.monitors ∙ present (find monitor_key id db.monitors) e
  where
    present :
        (o : Option MonitorRow)
        → Option.map scan_monitor o ≡ some m
        → elim o [ none ↦ false | some r ↦ true ] ≡ true
    present none e = cc
    present (some r) e = refl

module _ (error_text : Error → String) (env : Env) (coordinator : Option String)
    (node_id id : String) (nets : ℕ → Network) where
  -- A result of the stored monitor, under the ids of the monitor and of this node, at the time that the
  -- clock shows, by a checker of the monitor's type.
  pub record IsMeasured (w : World) (r : CheckResult) : Type 0 where
    pub monitor : Monitor
    pub known : monitor_of id w.db ≡ some monitor
    pub checker : Checker
    pub same_type : type_of checker ≡ monitor.check_type
    pub of_monitor : r.monitor_id ≡ id
    pub of_node : r.node_id ≡ node_id
    pub at_time : r.timestamp ≡ env.clock w.readings
    pub plain : r.details ≡ none
    pub read : IsReading error_text (λ i. check (nets i) checker monitor) monitor r

  -- Why there is no result: one of the two statements fails, there is no such monitor, its type is
  -- unknown, or there is no such node.
  abbrev pub IsSkipped : World → Type 0
  IsSkipped w =
      (env.faults w.statements ≡ true)
      ⊎ (env.faults (suc w.statements) ≡ true)
      ⊎ (monitor_of id w.db ≡ none)
      ⊎ ((m : Monitor) × (monitor_of id w.db ≡ some m) × (¬ Elem m.check_type check_types))
      ⊎ (has node_key node_id w.db.nodes ≡ false)

  -- Where nothing stands in the way, one result is added, and it is pushed to the coordinator.
  pub run_check-IsAdded :
      (w : World) (m : Monitor)
      → env.faults w.statements ≡ false
      → env.faults (suc w.statements) ≡ false
      → monitor_of id w.db ≡ some m
      → Elem m.check_type check_types
      → has node_key node_id w.db.nodes ≡ true
      → (r : CheckResult) × IsMeasured w r
        × IsAdded r w.db (run_check error_text env coordinator node_id nets id w).1.db
        × ((run_check error_text env coordinator node_id nets id w).0
            ≡ pushed error_text coordinator r)
  unfolding run_check get_monitor exec check_found now insert_check_result insert_result
  run_check-IsAdded w m fine fine' known checked node =
      let (c, registered, same) = (registry_lem m.check_type).0 checked in
      let r = reading error_text node_id id nets c m (env.clock w.readings) in
      let stored = has-stored id w.db m known in
      (
        r,
        record {
          monitor = m;
          known = known;
          checker = c;
          same_type = same;
          of_monitor = refl;
          of_node = refl;
          at_time = refl;
          plain = refl;
          read = reading-IsReading error_text node_id id nets c m (env.clock w.readings);
        },
        rw (fine, known, registered, fine', stored, node) (append-IsAdded r w.db refl),
        rw (fine, known, registered) refl,
      )

  -- The body of executeCheck either leaves the database as it was, and then one of its two
  -- statements failed, the monitor is not stored, its type is none of the six, or this node is not
  -- stored; or it adds one result behind the others and changes nothing else. The result, as it is
  -- read back, has the ids of the monitor and of this node and the time that the clock shows, and
  -- says what the first attempt that is up, or the last that the retries allow, gave by a checker
  -- of the type of the monitor: its outcome, or down with the text of its error.
  pub run_check-IsMeasured :
      (w : World)
      → (((run_check error_text env coordinator node_id nets id w).1.db ≡ w.db) × IsSkipped w)
        ⊎ ((r : CheckResult) × IsMeasured w r
            × IsAdded r w.db (run_check error_text env coordinator node_id nets id w).1.db)
  unfolding run_check get_monitor exec check_found now insert_check_result insert_result
  run_check-IsMeasured w = elim (Bool-cases (env.faults w.statements)) [
    | inl f ↦ inl (rw f refl, inl f)
    | inr f ↦ elim (Option-cases (monitor_of id w.db)) [
      | inl e ↦ inl (rw (f, e) refl, inr (inr (inl e)))
      | inr (m, e) ↦ elim (check_types-cases m.check_type) [
        | inr h ↦
            inl (rw (f, e, (registry_lem m.check_type).1 h) refl, inr (inr (inr (inl (m, e, h)))))
        | inl h ↦ elim (Bool-cases (env.faults (suc w.statements))) [
          | inl g ↦
              let (c, registered, same) = (registry_lem m.check_type).0 h in
              inl (rw (f, e, registered, g) refl, inr (inl g))
          | inr g ↦ elim (Bool-cases (has node_key node_id w.db.nodes)) [
            | inl n ↦ let added = run_check-IsAdded w m f g e h n in inr (added.0, added.1, added.2)
            | inr n ↦
                let (c, registered, same) = (registry_lem m.check_type).0 h in
                inl (
                  rw (f, e, registered, g, has-stored id w.db m e, n) refl,
                  inr (inr (inr (inr n))),
                )
          ]
        ]
      ]
    ]
  ]
