-- ===== src/Checker/Dns.antt =====
-- internal/checker/dns.go. The DNS client is a parameter, with the names that the DNS library gives to
-- response codes.
use Prim.Native.Char.{code}
use ping_mesh.Prelude.{
  String, ℕ, ◌-◌, ℤ, pos, ltb_ℤ, eq_ℤ, ltb, Bool, true, false, ◌&&◌, ◌||◌, List, [], ◌∷◌, map, any,
  Result, ok, err, ◌==◌, if◌then◌else◌, nat_eq, codes, length,
}
use ping_mesh.Model.{Monitor, status_up, status_down}
use ping_mesh.Checker.Outcome.{text, number, reason, texts, Sprintf, CheckOutcome, down_outcome}

pub data RecordType : Type 0 where
  type_a type_aaaa type_cname type_mx type_txt : RecordType

-- A record of the answer section; those of other types are skipped.
pub data Answer : Type 0 where
  a_answer aaaa_answer cname_answer : String → Answer
  mx_answer : ℤ → String → Answer
  txt_answer : List String → Answer
  other_answer : Answer

pub record DnsReply : Type 0 where
  pub rcode : ℤ
  pub answers : List Answer

pub record DnsClient : Type 0 where
  pub exchange : String → String → RecordType → ℤ → Result DnsReply × ℕ
  pub rcode_name : ℤ → String

-- strings.ToUpper, on the letters a to z: no other letter has one of A to Z as its capital that stands in
-- a name below.
abbrev pub upper : ℕ → ℕ
upper c = if ltb 96 c && ltb c 123 then c - 32 else c

abbrev pub same_codes : List ℕ → List ℕ → Bool
same_codes [] [] = true
same_codes [] (d ∷ ds) = false
same_codes (c ∷ cs) [] = false
same_codes (c ∷ cs) (d ∷ ds) = nat_eq c d && same_codes cs ds

abbrev pub is_upper_of : String → String → Bool
is_upper_of name s = same_codes (map upper (codes s)) (codes name)

unfoldable pub record_type : String → RecordType
record_type s =
    if is_upper_of "AAAA" s
    then type_aaaa
    else if is_upper_of "CNAME" s
    then type_cname
    else if is_upper_of "MX" s
    then type_mx
    else if is_upper_of "TXT" s
    then type_txt
    else type_a

abbrev pub dot : ℕ
dot = 46

-- The target, with a dot at its end.
unfoldable pub with_dot : String → String
with_dot String.[] = "."
with_dot (String.◌∷◌ c String.[]) =
    if nat_eq (code c) dot then String.◌∷◌ c String.[] else String.◌∷◌ c "."
with_dot (String.◌∷◌ c (String.◌∷◌ d s)) = String.◌∷◌ c (with_dot (String.◌∷◌ d s))

module _ (sprintf : Sprintf) (join : List String → String) where
  abbrev pub answer_texts : List Answer → List String
  answer_texts [] = []
  answer_texts (a_answer t ∷ rs) = t ∷ answer_texts rs
  answer_texts (aaaa_answer t ∷ rs) = t ∷ answer_texts rs
  answer_texts (cname_answer t ∷ rs) = t ∷ answer_texts rs
  answer_texts (mx_answer n t ∷ rs) = sprintf "%d %s" (number n ∷ text t ∷ []) ∷ answer_texts rs
  answer_texts (txt_answer ts ∷ rs) = join ts ∷ answer_texts rs
  answer_texts (other_answer ∷ rs) = answer_texts rs

  unfoldable pub is_expected : Monitor → List String → Bool
  is_expected m found = (m.dns_expected == "") || any (λ t. t == m.dns_expected) found

  unfoldable pub dns_verdict : Monitor → List String → ℕ → CheckOutcome
  unfolding is_expected
  dns_verdict m found latency = record {
    status = if is_expected m found then status_up else status_down;
    latency_us = latency;
    status_code = pos 0;
    error =
        if is_expected m found
        then ""
        else sprintf "expected answer %q not found in %v" (text m.dns_expected ∷ texts found ∷ []);
    details = ("answers", texts found) ∷ ("answer_count", number (pos (length found))) ∷ [];
  }

  unfoldable pub dns_outcome : DnsClient → Monitor → Result DnsReply × ℕ → CheckOutcome
  unfolding dns_verdict
  dns_outcome client m (err e, latency) =
      down_outcome latency (pos 0) (sprintf "dns query failed: %v" (reason e ∷ []))
  dns_outcome client m (ok reply, latency) =
      if eq_ℤ reply.rcode (pos 0)
      then dns_verdict m (answer_texts reply.answers) latency
      else record (down_outcome latency (pos 0)
          (sprintf "dns error: %s" (text (client.rcode_name reply.rcode) ∷ []))) {
            details = ("rcode", text (client.rcode_name reply.rcode)) ∷ [];
          }

  unfoldable pub dns_server : Monitor → String
  dns_server m =
      if ltb_ℤ (pos 0) m.port
      then sprintf "%s:%d" (text m.target ∷ number m.port ∷ [])
      else "8.8.8.8:53"

  unfoldable pub check_dns_target : DnsClient → Monitor → CheckOutcome
  unfolding dns_outcome dns_server
  check_dns_target client m = dns_outcome client m (
      client.exchange (dns_server m) (with_dot m.target) (record_type m.dns_record_type)
        m.timeout_ms)
