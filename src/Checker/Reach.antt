-- ===== src/Checker/Reach.antt =====
-- internal/checker/tcp.go and icmp.go. Dialling and pinging are parameters.
use ping_mesh.Prelude.{String, ℕ, ℤ, pos, List, [], ◌∷◌, Result, ok, err, if◌then◌else◌, nat_eq}
use ping_mesh.Model.{Monitor, status_up}
use ping_mesh.Checker.Outcome.{Value, text, number, reason, Sprintf, CheckOutcome, down_outcome}

abbrev pub up_outcome : ℕ → List (String × Value) → CheckOutcome
up_outcome latency details = record {
  status = status_up;
  latency_us = latency;
  status_code = pos 0;
  error = "";
  details = details;
}

-- `packet_loss` is the number as it is encoded; the times are in microseconds.
pub record PingStats : Type 0 where
  pub packets_sent : ℕ
  pub packets_recv : ℕ
  pub packet_loss : Value
  pub min_rtt_us : ℕ
  pub max_rtt_us : ℕ
  pub avg_rtt_us : ℕ

pub record Sockets : Type 0 where
  pub dial : String → ℤ → Result (Unit {0}) × ℕ
  pub new_pinger : String → Result (Unit {0})
  pub ping : String → ℤ → Result PingStats

module _ (sprintf : Sprintf) where
  unfoldable pub tcp_outcome : Result (Unit {0}) × ℕ → CheckOutcome
  tcp_outcome (err e, latency) =
      down_outcome latency (pos 0) (sprintf "tcp connect failed: %v" (reason e ∷ []))
  tcp_outcome (ok _, latency) = up_outcome latency []

  unfoldable pub check_tcp_target : Sockets → Monitor → CheckOutcome
  unfolding tcp_outcome
  check_tcp_target net m =
      tcp_outcome (net.dial (sprintf "%s:%d" (text m.target ∷ number m.port ∷ [])) m.timeout_ms)

  unfoldable pub ping_outcome : Result PingStats → CheckOutcome
  ping_outcome (err e) = down_outcome 0 (pos 0) (sprintf "ping failed: %v" (reason e ∷ []))
  ping_outcome (ok s) =
      if nat_eq s.packets_recv 0
      then record (down_outcome 0 (pos 0) "no reply received") {
        details =
            ("packets_sent", number (pos s.packets_sent))
            ∷ ("packets_recv", number (pos s.packets_recv))
            ∷ [];
      }
      else up_outcome s.avg_rtt_us (
          ("packets_sent", number (pos s.packets_sent))
          ∷ ("packets_recv", number (pos s.packets_recv))
          ∷ ("packet_loss", s.packet_loss)
          ∷ ("min_rtt_ms", number (pos s.min_rtt_us))
          ∷ ("max_rtt_ms", number (pos s.max_rtt_us))
          ∷ ("avg_rtt_ms", number (pos s.avg_rtt_us))
          ∷ [])

  unfoldable pub icmp_outcome : Sockets → Monitor → Result (Unit {0}) → CheckOutcome
  unfolding ping_outcome
  icmp_outcome net m (err e) =
      down_outcome 0 (pos 0) (sprintf "creating pinger: %v" (reason e ∷ []))
  icmp_outcome net m (ok _) = ping_outcome (net.ping m.target m.timeout_ms)

  unfoldable pub check_icmp_target : Sockets → Monitor → CheckOutcome
  unfolding icmp_outcome
  check_icmp_target net m = icmp_outcome net m (net.new_pinger m.target)
