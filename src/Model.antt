-- ===== src/Model.antt =====
-- internal/model/types.go: the data that the other parts exchange and store.
-- An int or int64 is an integer ℤ; a latency (float64 milliseconds) is a whole number of
-- microseconds; a JSON text that is only carried is the text itself. A slice that may be nil is an
-- Option of a list.
mod Cluster
mod Monitoring
mod Incidents
mod Alerts
mod Peer
mod Reports
pub use Cluster.*
pub use Monitoring.*
pub use Incidents.*
pub use Alerts.*
pub use Peer.*
pub use Reports.*
