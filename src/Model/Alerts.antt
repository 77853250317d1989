-- ===== src/Model/Alerts.antt =====
-- internal/model/types.go: alert channels, the record of a delivery, and what a webhook carries.
use ping_mesh.Prelude.{String, ℤ, ℕ, Bool, List}

pub record AlertChannel : Type 0 where
  pub id : String
  pub name : String
  pub channel_type : String  -- "webhook" or "email"
  pub enabled : Bool
  pub config : String
  pub created_at : ℤ
  pub updated_at : ℤ

pub record AlertRecord : Type 0 where
  pub id : ℕ
  pub channel_id : String
  pub incident_id : String
  pub monitor_id : String
  pub event_type : String  -- "alert", "recovery" or "test"
  pub status : String  -- "success" or "failed"
  pub error : String
  pub sent_at : ℤ

pub record IncidentDetail : Type 0 where
  pub id : String
  pub status : String
  pub started_at : String
  pub confirmed_at : String
  pub resolved_at : String
  pub confirming_nodes : List String
  pub duration_sec : ℤ

pub record MonitorSummary : Type 0 where
  pub id : String
  pub name : String
  pub check_type : String
  pub target : String
  pub group : String

pub record WebhookConfig : Type 0 where
  pub url : String
  pub secret : String

pub record EmailConfig : Type 0 where
  pub smtp_host : String
  pub smtp_port : ℤ
  pub username : String
  pub password : String
  pub from : String
  pub to : String
  pub tls : Bool

pub record WebhookPayload : Type 0 where
  pub event : String
  pub timestamp : String
  pub incident : IncidentDetail
  pub monitor : MonitorSummary
