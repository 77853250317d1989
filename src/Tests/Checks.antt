-- ===== src/Tests/Checks.antt =====
-- What the theorems on the checkers and the scheduler say of an example.
use ping_mesh.Prelude.{
  ◌≡◌, ◌↔◌, ◌⊎◌, refl, ℕ, ◌<◌, ◌≤◌, ◌-◌, pos, pos_part, String, true, [], ◌∷◌, none, some, Result,
  ok, err, engine_fault, Error, codes,
}
use ping_mesh.Model.{CheckResult, Monitor, check_https, status_up, status_down, status_degraded}
use ping_mesh.Db.{find, has, delete}
use ping_mesh.Checker.{
  Sprintf, CheckOutcome, down_outcome, Certificate, HttpClient, http_url, check_http_target,
  keyword_url, check_keyword, a_answer, DnsClient, check_dns_target, Sockets, Network, http_checker,
  check,
}
use ping_mesh.Checker.Verdicts.Web.{IsGood, IsEnding, http_verdict}
use ping_mesh.Checker.Verdicts.Words.{IsFound, keyword_up}
use ping_mesh.Checker.{record_type}
use ping_mesh.Checker.Verdicts.Names.{AsksFor, IsResolved, dns_up}
use ping_mesh.Scheduler.{
  Scheduler, new_scheduler, start_monitor, new_loop, ticker_key, sync_monitors, stop, begin_check,
  find_loop, Reach, here, next, synced, began, is_running, attempts_of, attempt, untried,
  is_up_outcome, measure, run_check,
}
use ping_mesh.Scheduler.Sync.{IsWanted, first_with, sync_monitors-timers}
use ping_mesh.Scheduler.Invariant.{IsSound, Reach-IsSound, new_scheduler-IsSound}
use ping_mesh.Scheduler.Busy.{busy, one}
use ping_mesh.Scheduler.Overlap.{Unstopped, at_start, then_step, one_check, two_checks}
use ping_mesh.Scheduler.Attempts.{EndsAt, attempts-EndsAt, measure-up}
use ping_mesh.Scheduler.Stored.{IsMeasured, IsSkipped, IsAdded, run_check-IsMeasured}
use ping_mesh.Tests.Setup.{quiet_env, site, down_world, down_db}

abbrev pub sprintf : Sprintf
sprintf format values = format

-- A server that answers 500, with a certificate for one more day.
abbrev pub certificate : Certificate
certificate = record { remaining_ns = pos 86400000000000; issuer = "CA"; subject = "example.com" }

abbrev pub http_client : HttpClient
http_client = record {
  new_request = λ url. ok tt;
  fetch = λ url timeout. (
    ok (record {
      status_code = pos 500;
      protocol = "HTTP/1.1";
      certificate = some certificate;
      body = ok (codes "all is well");
    }),
    1500,
  );
}

abbrev pub dns_client : DnsClient
dns_client = record {
  exchange = λ server name kind timeout.
      (ok (record { rcode = pos 0; answers = a_answer "10.0.0.7" ∷ [] }), 900);
  rcode_name = λ code. "NOERROR";
}

abbrev pub sockets : Sockets
sockets = record {
  dial = λ address timeout. (ok tt, 100);
  new_pinger = λ target. ok tt;
  ping = λ target timeout. err engine_fault;
}

abbrev pub network : Network
network = record {
  sprintf = sprintf;
  utf8 = codes;
  join = λ parts. "";
  http = http_client;
  dns = dns_client;
  sockets = sockets;
}

abbrev pub error_text : Error → String
error_text e = "error"

abbrev secure_site : Monitor
secure_site = record site { check_type = check_https; retries = pos 3; expected_keyword = "well" }

http_verdict_example :
    (((check_http_target sprintf http_client check_https secure_site).status ≡ status_up)
      ↔ IsGood sprintf check_https secure_site http_client
          (http_url sprintf check_https secure_site))
    × (((check_http_target sprintf http_client check_https secure_site).status ≡ status_degraded)
        ↔ IsEnding sprintf check_https secure_site http_client
            (http_url sprintf check_https secure_site))
http_verdict_example = http_verdict sprintf check_https secure_site http_client

-- The expired certificate hides the 500.
degraded_run :
    (check_http_target sprintf http_client check_https secure_site).status ≡ status_degraded
unfolding check_http_target
degraded_run = refl

keyword_up_example :
    (((check_keyword sprintf codes http_client secure_site).status ≡ status_up)
      ↔ IsFound sprintf codes http_client secure_site (keyword_url sprintf codes secure_site))
    × (((check_keyword sprintf codes http_client secure_site).status ≡ status_up)
        ⊎ ((check_keyword sprintf codes http_client secure_site).status ≡ status_down))
keyword_up_example = keyword_up sprintf codes http_client secure_site

dns_up_example :
    (((check_dns_target sprintf network.join dns_client site).status ≡ status_up)
      ↔ IsResolved sprintf network.join site dns_client)
    × (((check_dns_target sprintf network.join dns_client site).status ≡ status_up)
        ⊎ ((check_dns_target sprintf network.join dns_client site).status ≡ status_down))
    × AsksFor "" (record_type "")
dns_up_example = dns_up sprintf network.join site dns_client

sync_monitors-timers_example :
    IsWanted
      (find ticker_key "m1" new_scheduler.timers)
      (first_with "m1" (site ∷ []))
      (find ticker_key "m1" (sync_monitors (site ∷ []) new_scheduler).timers)
    × (find ticker_key "m1" (stop new_scheduler).timers ≡ none)
sync_monitors-timers_example = sync_monitors-timers "m1" (site ∷ []) new_scheduler

abbrev started : Scheduler
started = sync_monitors (site ∷ []) new_scheduler

first_loop : find_loop 0 started.loops ≡ some (new_loop 0 "m1")
unfolding find_loop sync_monitors has start_monitor delete
first_loop = refl

abbrev checking : Scheduler
checking = begin_check (new_loop 0 "m1") started

Reach-IsSound_example : IsSound checking
Reach-IsSound_example =
    Reach-IsSound new_scheduler-IsSound
      (next (next here (synced (site ∷ []))) (began (new_loop 0 "m1") first_loop refl refl))

keeps_none :
    has ticker_key "m1" new_scheduler.timers ≡ true → has ticker_key "m1" started.timers ≡ true
unfolding has
keeps_none h = cc

keeps_ticker :
    has ticker_key "m1" started.timers ≡ true → has ticker_key "m1" checking.timers ≡ true
unfolding begin_check is_running find sync_monitors has start_monitor delete
keeps_ticker h = h

begins : Unstopped "m1" new_scheduler checking
begins =
    then_step (then_step at_start (synced (site ∷ [])) keeps_none)
      (began (new_loop 0 "m1") first_loop refl refl) keeps_ticker

one_check_example :
    (busy "m1" checking.loops ≡ one (is_running "m1" checking)) × (busy "m1" checking.loops ≤ 1)
one_check_example = one_check "m1" begins

two_checks_example : (s : Scheduler) × Reach new_scheduler s × (busy "m1" s.loops ≡ 2)
two_checks_example = two_checks site

abbrev probe : ℕ → Result CheckOutcome
probe i = ok (down_outcome i (pos 0) "down")

attempts-EndsAt_example :
    EndsAt probe 0
      (pos_part secure_site.retries - 1)
      (attempt probe (attempts_of secure_site) 0 untried)
attempts-EndsAt_example = attempts-EndsAt probe secure_site

measure-up_example :
    ((measure error_text (λ i. network) (http_checker check_https) secure_site).status ≡ status_up)
    ↔ ((j : ℕ) × (j < attempts_of secure_site)
        × (is_up_outcome (check network (http_checker check_https) secure_site) ≡ true))
measure-up_example = measure-up error_text (λ i. network) (http_checker check_https) secure_site

run_check-IsMeasured_example :
    (((run_check error_text quiet_env none "n1" (λ i. network) "m1" down_world).1.db ≡ down_db)
      × IsSkipped error_text quiet_env none "n1" "m1" (λ i. network) down_world)
    ⊎ ((r : CheckResult) × IsMeasured error_text quiet_env none "n1" "m1"
          (λ i. network)
          down_world
          r
        × IsAdded r down_db
            (run_check error_text quiet_env none "n1" (λ i. network) "m1" down_world).1.db)
run_check-IsMeasured_example =
    run_check-IsMeasured error_text quiet_env none "n1" "m1" (λ i. network) down_world
