-- ===== src/World.antt =====
-- What the program runs in: the database engine with its faults and its orders, the clock, the
-- source of UUIDs, and the goroutines that have been started and not yet run.
pub mod Frame
use ping_mesh.Prelude.{
  String, ℤ, leb_ℤ, ℕ, suc, Bool, List, if◌then◌else◌, Sorter, text_le, Result, ok, err,
  engine_fault,
}
use ping_mesh.Model.{Node, Monitor, Incident, AlertChannel}
use ping_mesh.Db.{Db, MonitorRow, ResultRow, IncidentRow, ChannelRow, HistoryRow}

-- ORDER BY of each query. The order of rows with equal keys is the engine's choice.
abbrev pub node_le : Node → Node → Bool
node_le a b = leb_ℤ a.created_at b.created_at

abbrev pub monitor_le : MonitorRow → MonitorRow → Bool
monitor_le a b = text_le a.name b.name

abbrev pub result_le : ResultRow → ResultRow → Bool
result_le a b = leb_ℤ b.timestamp a.timestamp

abbrev pub incident_le : IncidentRow → IncidentRow → Bool
incident_le a b = leb_ℤ b.created_at a.created_at

abbrev pub channel_le : ChannelRow → ChannelRow → Bool
channel_le a b = leb_ℤ a.created_at b.created_at

abbrev pub history_le : HistoryRow → HistoryRow → Bool
history_le a b = leb_ℤ b.sent_at a.sent_at

-- The surroundings: whether the n-th statement fails, the n-th reading of the clock in milliseconds,
-- the n-th UUID, and the orders.
pub record Env : Type 0 where
  pub faults : ℕ → Bool
  pub clock : ℕ → ℤ
  pub uuids : ℕ → String
  pub nodes_by_age : Sorter node_le
  pub monitors_by_name : Sorter monitor_le
  pub results_newest_first : Sorter result_le
  pub incidents_newest_first : Sorter incident_le
  pub channels_by_age : Sorter channel_le
  pub history_newest_first : Sorter history_le

-- A goroutine of `dispatch`: one notification that is still to be sent.
pub record Delivery : Type 0 where
  pub channel : AlertChannel
  pub incident : Incident
  pub monitor : Monitor
  pub event_type : String

pub record World : Type 0 where
  pub db : Db
  pub statements : ℕ  -- run so far
  pub readings : ℕ
  pub drawn : ℕ
  pub pending : List Delivery

-- Code that reads and changes the world.
abbrev pub Act : Type 0 → Type 0
Act A = World → A × World

abbrev pub pure : {A : Type 0} → A → Act A
pure a w = (a, w)

infixl 5 ◌>>=◌ ◌>>◌
abbrev pub ◌>>=◌ : {A B : Type 0} → Act A → (A → Act B) → Act B
◌>>=◌ m f w = let (a, w') = m w in f a w'

abbrev pub ◌>>◌ : {A B : Type 0} → Act A → Act B → Act B
m >> k = m >>= λ _. k

-- `if err != nil { return …, err }`
abbrev pub or_return : {A B : Type 0} → (A → Act (Result B)) → Result A → Act (Result B)
or_return f (ok a) = f a
or_return f (err e) = pure (err e)

unfoldable pub settle : {A : Type 0} → World → Result (A × Db) → Result A × World
settle w (ok (a, db)) = (ok a, record w { db = db })
settle w (err e) = (err e, w)

module _ (env : Env) where
  -- db.Exec and db.Query. A statement that fails, by a fault of the engine or by a constraint, leaves
  -- the database as it was.
  unfoldable pub exec : {A : Type 0} → (Db → Result (A × Db)) → Act (Result A)
  unfolding settle
  exec statement w =
      let w' = record w { statements = suc w.statements } in
      if env.faults w.statements then (err engine_fault, w') else settle w' (statement w.db)

  -- time.Now().UnixMilli()
  unfoldable pub now : Act ℤ
  now w = (env.clock w.readings, record w { readings = suc w.readings })

  -- uuid.New().String()
  unfoldable pub new_uuid : Act String
  new_uuid w = (env.uuids w.drawn, record w { drawn = suc w.drawn })

-- SELECT
abbrev pub select : {A : Type 0} → (Db → A) → Db → Result (A × Db)
select q db = ok (q db, db)

-- INSERT, UPDATE, DELETE
abbrev pub write : Result Db → Result (Unit {0} × Db)
write (ok db) = ok (tt, db)
write (err e) = err e
