-- ===== src/Checker/Registry.antt =====
-- internal/checker/checker.go: the registry of checkers.
use ping_mesh.Prelude.{
  String, ℕ, List, [], ◌∷◌, Result, ok, err, message, wrapped, ◌==◌, if◌then◌else◌,
}
use ping_mesh.Model.{
  Monitor, CheckType, check_icmp, check_tcp, check_http, check_https, check_dns, check_http_keyword,
}
use ping_mesh.Checker.Outcome.{Sprintf, CheckOutcome}
use ping_mesh.Checker.Http.{HttpClient, check_http_target}
use ping_mesh.Checker.Keyword.{check_keyword}
use ping_mesh.Checker.Dns.{DnsClient, check_dns_target}
use ping_mesh.Checker.Reach.{Sockets, check_tcp_target, check_icmp_target}

-- The implementations of Checker.
pub data Checker : Type 0 where
  icmp_checker tcp_checker dns_checker keyword_checker : Checker
  http_checker : CheckType → Checker

-- Type()
unfoldable pub type_of : Checker → CheckType
type_of icmp_checker = check_icmp
type_of tcp_checker = check_tcp
type_of dns_checker = check_dns
type_of keyword_checker = check_http_keyword
type_of (http_checker t) = t

-- Everything that a check asks of the outside.
pub record Network : Type 0 where
  pub sprintf : Sprintf
  pub utf8 : String → List ℕ
  pub join : List String → String
  pub http : HttpClient
  pub dns : DnsClient
  pub sockets : Sockets

-- Check(ctx, monitor)
unfoldable pub check : Network → Checker → Monitor → Result CheckOutcome
check net icmp_checker m = ok (check_icmp_target net.sprintf net.sockets m)
check net tcp_checker m = ok (check_tcp_target net.sprintf net.sockets m)
check net dns_checker m = ok (check_dns_target net.sprintf net.join net.dns m)
check net keyword_checker m = ok (check_keyword net.sprintf net.utf8 net.http m)
check net (http_checker t) m = ok (check_http_target net.sprintf net.http t m)

-- The map, with the newest entry of a key in front.
abbrev pub CheckerMap : Type 0
CheckerMap = List (CheckType × Checker)

unfoldable pub register : Checker → CheckerMap → CheckerMap
unfolding type_of
register c entries = (type_of c, c) ∷ entries

unfoldable pub get : CheckType → CheckerMap → Result Checker
get t [] = err (wrapped "unknown check type" (message t))
get t ((key, c) ∷ entries) = if key == t then ok c else get t entries

unfoldable pub register_all : CheckerMap → CheckerMap
unfolding register
register_all entries = register keyword_checker (
    register dns_checker (
      register (http_checker check_https) (
        register (http_checker check_http) (register tcp_checker (register icmp_checker entries)))))
