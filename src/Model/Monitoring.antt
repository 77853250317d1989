-- ===== src/Model/Monitoring.antt =====
-- internal/model/types.go: monitors and the results of their checks.
use ping_mesh.Prelude.{String, ℤ, ℕ, Bool, Option}

abbrev pub CheckType : Type 0
CheckType = String

abbrev pub check_icmp : CheckType
check_icmp = "icmp"

abbrev pub check_tcp : CheckType
check_tcp = "tcp"

abbrev pub check_http : CheckType
check_http = "http"

abbrev pub check_https : CheckType
check_https = "https"

abbrev pub check_dns : CheckType
check_dns = "dns"

abbrev pub check_http_keyword : CheckType
check_http_keyword = "http_keyword"

pub record Monitor : Type 0 where
  pub id : String
  pub name : String
  pub group_name : String
  pub check_type : CheckType
  pub target : String
  pub port : ℤ
  pub interval_ms : ℤ
  pub timeout_ms : ℤ
  pub retries : ℤ
  pub expected_status : ℤ
  pub expected_keyword : String
  pub dns_record_type : String
  pub dns_expected : String
  pub failure_threshold : ℤ
  pub recovery_threshold : ℤ
  pub quorum_type : String  -- "majority" or "n_of_m"
  pub quorum_n : ℤ
  pub cooldown_ms : ℤ
  pub enabled : Bool
  pub created_at : ℤ
  pub updated_at : ℤ

abbrev pub CheckStatus : Type 0
CheckStatus = String

abbrev pub status_up : CheckStatus
status_up = "up"

abbrev pub status_down : CheckStatus
status_down = "down"

abbrev pub status_degraded : CheckStatus
status_degraded = "degraded"

pub record CheckResult : Type 0 where
  pub id : ℕ
  pub monitor_id : String
  pub node_id : String
  pub status : CheckStatus
  pub latency_us : ℕ
  pub status_code : ℤ
  pub error : String
  pub details : Option String  -- raw JSON, or nil
  pub timestamp : ℤ
