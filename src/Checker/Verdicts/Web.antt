-- ===== src/Checker/Verdicts/Web.antt =====
-- internal/checker/http.go: from the answer of a server to the status.
use ping_mesh.Prelude.{
  ◌≡◌, ◌≢◌, ◌↔◌, ◌⊎◌, inl, inr, refl, sym, ap, subst, ◌∙◌, ℕ, ℤ, pos, ◌<ℤ◌, leb_ℤ, ltb_ℤ, eq_ℤ,
  eq_ℤ-sound, String, ◌&&◌, not, Option, none, some, Result, ok, err, Bool-cases, ◌==◌, eq_iff,
  arith,
}
use ping_mesh.Model.{Monitor, CheckType, check_https, status_up, status_down, status_degraded}
use ping_mesh.Checker.Outcome.{Sprintf, CheckOutcome}
use ping_mesh.Checker.Http.{
  Certificate, Response, HttpClient, week_ns, http_url, code_status, code_outcome, with_certificate,
  with_expiry, http_outcome, http_requested, check_http_target,
}

-- The code that the monitor asks for, or one below 400 where it asks for none.
abbrev pub IsWanted : Monitor → ℤ → Type 0
IsWanted m code =
    (pos 0 <ℤ m.expected_status → code ≡ m.expected_status)
    × (m.expected_status ≡ pos 0 → code <ℤ pos 400)

-- The certificate of an HTTPS response that ends within a week.
pub record IsExpiring (check_type : CheckType) (sent : Option Certificate) : Type 0 where
  pub secure : check_type ≡ check_https
  pub certificate : Certificate
  pub is_sent : sent ≡ some certificate
  pub soon : certificate.remaining_ns <ℤ pos week_ns

-- The request for the URL could be made, and was answered.
pub record IsAnswered (client : HttpClient) (url : String) (timeout : ℤ) (r : Response)
    : Type 0 where
  pub made : client.new_request url ≡ ok tt
  pub answered : (client.fetch url timeout).0 ≡ ok r

pub down_ne_up : status_down ≢ status_up
down_ne_up e = ground (arith, eq_iff status_down status_up)

degraded_ne_up : status_degraded ≢ status_up
degraded_ne_up e = ground (arith, eq_iff status_degraded status_up)

degraded_ne_down : status_degraded ≢ status_down
degraded_ne_down e = ground (arith, eq_iff status_degraded status_down)

-- The code decides between up and down.
code_status_cases :
    (m : Monitor) (code : ℤ)
    → ((code_status m code ≡ status_up) × IsWanted m code)
      ⊎ ((code_status m code ≡ status_down) × (¬ IsWanted m code))
unfolding code_status
code_status_cases m code =
    elim (Bool-cases (ltb_ℤ (pos 0) m.expected_status && not (eq_ℤ code m.expected_status))) [
      | inl e ↦ rw e (inr (refl, λ h. ground arith))
      | inr e ↦ elim (Bool-cases (eq_ℤ m.expected_status (pos 0) && leb_ℤ (pos 400) code)) [
        | inl f ↦ rw (e, f) (inr (refl, λ h. ground (arith, eq_ℤ-sound m.expected_status (pos 0))))
        | inr f ↦
            rw (e, f)
              (inl
                (refl, (λ p. ground (arith, eq_ℤ-sound code m.expected_status), λ z. ground arith)))
      ]
    ]

module _ (sprintf : Sprintf) (t : CheckType) where
  with_expiry_cases :
      (c : Option Certificate) (o : CheckOutcome)
      → (IsExpiring t c × ((with_expiry sprintf t c o).status ≡ status_degraded))
        ⊎ ((¬ IsExpiring t c) × ((with_expiry sprintf t c o).status ≡ o.status))
  unfolding with_expiry with_certificate
  with_expiry_cases none o = inr (λ h. cc (h.is_sent), refl)
  with_expiry_cases (some c) o = elim (Bool-cases (t == check_https)) [
    | inl e ↦ elim (Bool-cases (ltb_ℤ c.remaining_ns (pos week_ns))) [
      | inl f ↦
          rw (e, f)
            (inl (
              record {
                secure = (eq_iff t check_https).0 e;
                certificate = c;
                is_sent = refl;
                soon = ground arith;
              },
              refl,
            ))
      | inr f ↦
          rw (e, f)
            (inr (
              λ h.
                  let same : h.certificate ≡ c = cc (h.is_sent) in
                  let soon : c.remaining_ns <ℤ pos week_ns =
                    subst (λ (x : Certificate). x.remaining_ns <ℤ pos week_ns) same h.soon in
                  ground arith,
              refl,
            ))
    ]
    | inr e ↦ rw e (inr (λ h. ground (arith, eq_iff t check_https, h.secure), refl))
  ]

  module _ (m : Monitor) (client : HttpClient) where
    -- A reply with the wanted code, and no certificate that ends soon.
    pub record IsGood (url : String) : Type 0 where
      pub reply : Response
      pub received : IsAnswered client url m.timeout_ms reply
      pub wanted : IsWanted m reply.status_code
      pub lasting : ¬ IsExpiring t reply.certificate

    -- A reply over HTTPS with a certificate that ends within a week.
    pub record IsEnding (url : String) : Type 0 where
      pub reply : Response
      pub received : IsAnswered client url m.timeout_ms reply
      pub ending : IsExpiring t reply.certificate

    abbrev Verdict : String → CheckOutcome → Type 0
    Verdict url o =
        (IsGood url × (o.status ≡ status_up))
        ⊎ ((IsEnding url × (¬ IsGood url) × (o.status ≡ status_degraded))
            ⊎ ((¬ IsGood url) × (¬ IsEnding url) × (o.status ≡ status_down)))

    same_reply : {a b : Response} (x : Result Response) → x ≡ ok a → x ≡ ok b → a ≡ b
    same_reply x p q = cc

    reply-Verdict :
        (url : String) (r : Response) (latency : ℕ)
        → IsAnswered client url m.timeout_ms r
        → Verdict url (http_outcome sprintf t m (ok r, latency))
    unfolding http_outcome code_outcome
    reply-Verdict url r latency received =
        let o = code_outcome sprintf m r latency in
        let good_reply : (g : IsGood url) → g.reply ≡ r =
          λ g. same_reply (client.fetch url m.timeout_ms).0 g.received.answered received.answered in
        let ending_reply : (g : IsEnding url) → g.reply ≡ r =
          λ g. same_reply (client.fetch url m.timeout_ms).0 g.received.answered received.answered in
        elim (with_expiry_cases r.certificate o) [
          | inl (ending, e) ↦ inr (
              inl (
                record { reply = r; received = received; ending = ending },
                λ g. g.lasting (
                    subst (λ (x : Response). IsExpiring t x.certificate) (sym (good_reply g))
                      ending),
                e,
              ))
          | inr (lasting, e) ↦ elim (code_status_cases m r.status_code) [
            | inl (same, wanted) ↦ inl (
              record { reply = r; received = received; wanted = wanted; lasting = lasting },
              e ∙ same,
            )
            | inr (same, refused) ↦ inr (
                inr (
                  λ g.
                      refused (
                        subst (λ (x : Response). IsWanted m x.status_code) (good_reply g) g.wanted),
                  λ g. lasting (
                      subst (λ (x : Response). IsExpiring t x.certificate) (ending_reply g)
                        g.ending),
                  e ∙ same,
                ))
          ]
        ]

    fetched-Verdict :
        (url : String) (x : Result Response × ℕ)
        → client.new_request url ≡ ok tt
        → client.fetch url m.timeout_ms ≡ x
        → Verdict url (http_outcome sprintf t m x)
    unfolding http_outcome
    fetched-Verdict url (ok r, latency) made e =
        reply-Verdict url r latency
          (record { made = made; answered = ap (λ (y : Result Response × ℕ). y.0) e })
    fetched-Verdict url (err x, latency) made e =
        inr (inr (λ g. cc (g.received.answered, e), λ g. cc (g.received.answered, e), refl))

    requested-Verdict :
        (url : String) (y : Result (Unit {0}))
        → client.new_request url ≡ y
        → Verdict url (http_requested sprintf client t m url y)
    unfolding http_requested
    requested-Verdict url (ok tt) e = fetched-Verdict url _ e refl
    requested-Verdict url (err x) e =
        inr (inr (λ g. cc (g.received.made, e), λ g. cc (g.received.made, e), refl))

    of-Verdict :
        (url : String) (o : CheckOutcome)
        → Verdict url o
        → ((o.status ≡ status_up) ↔ IsGood url) × ((o.status ≡ status_degraded) ↔ IsEnding url)
    of-Verdict url o (inl (g, e)) = (
      (λ _. g, λ _. e),
      (
        λ d. absurd (degraded_ne_up (sym d ∙ e)),
        λ h. absurd (
            g.lasting (
              subst (λ (x : Response). IsExpiring t x.certificate)
                (same_reply (client.fetch url m.timeout_ms).0 h.received.answered
                  g.received.answered)
                h.ending)),
      ),
    )
    of-Verdict url o (inr (inl (h, not_good, e))) =
        ((λ u. absurd (degraded_ne_up (sym e ∙ u)), λ g. absurd (not_good g)), (λ _. h, λ _. e))
    of-Verdict url o (inr (inr (not_good, not_ending, e))) = (
      (λ u. absurd (down_ne_up (sym e ∙ u)), λ g. absurd (not_good g)),
      (λ d. absurd (degraded_ne_down (sym d ∙ e)), λ h. absurd (not_ending h)),
    )

    -- The HTTP check reports up exactly if the request for the URL is made and answered, the code
    -- is the expected one, where a positive one is expected, or below 400, where 0 is, and the
    -- check is not over HTTPS with a certificate that ends within a week. It reports degraded
    -- exactly if it is answered over HTTPS with such a certificate, whatever the code is.
    pub http_verdict :
        (((check_http_target sprintf client t m).status ≡ status_up)
          ↔ IsGood (http_url sprintf t m))
        × (((check_http_target sprintf client t m).status ≡ status_degraded)
            ↔ IsEnding (http_url sprintf t m))
    unfolding check_http_target
    http_verdict =
        of-Verdict _ (check_http_target sprintf client t m)
          (requested-Verdict (http_url sprintf t m) _ refl)
