-- ===== src/Checker/Verdicts/Words.antt =====
-- internal/checker/keyword.go: the keyword in the body of a response.
use ping_mesh.Prelude.{
  ◌≡◌, ◌↔◌, ◌⊎◌, inl, inr, refl, sym, ap, ap₂, subst, ok-injective, ◌∙◌, ℕ, pos, ◌<ℤ◌, leb_ℤ,
  String, true, List, [], ◌∷◌, ◌++◌, take, Result, ok, err, Bool-cases, arith,
}
use ping_mesh.Model.{Monitor, status_up, status_down}
use ping_mesh.Checker.Outcome.{Sprintf, CheckOutcome}
use ping_mesh.Checker.Http.{Response, HttpClient}
use ping_mesh.Checker.Keyword.{
  begins_with, contains, body_limit, keyword_url, keyword_verdict, keyword_read, keyword_outcome,
  keyword_requested, check_keyword,
}
use ping_mesh.Checker.Verdicts.Web.{IsAnswered, down_ne_up}

-- The pattern stands somewhere in the text.
pub record IsPart (p s : List ℕ) : Type 0 where
  pub before : List ℕ
  pub after : List ℕ
  pub split : s ≡ before ++ (p ++ after)

begins_with-append : (p rest : List ℕ) → begins_with p (p ++ rest) ≡ true
unfolding begins_with
begins_with-append [] rest = refl
begins_with-append (b ∷ p) rest = ground (arith, begins_with-append p rest)

rest_of : (p s : List ℕ) → begins_with p s ≡ true → (rest : List ℕ) × (s ≡ p ++ rest)
unfolding begins_with
rest_of [] s h = (s, refl)
rest_of (b ∷ p) [] h = cc
rest_of (b ∷ p) (c ∷ s) h =
    let tail : begins_with p s ≡ true = ground arith in
    let same : c ≡ b = ground arith in
    let (rest, e) = rest_of p s tail in (rest, ap₂ (λ (x : ℕ) (xs : List ℕ). x ∷ xs) same e)

pub contains-IsPart : (p s : List ℕ) → contains p s ≡ true → IsPart p s
unfolding contains
contains-IsPart p [] h =
    let (rest, e) = rest_of p [] h in record { before = []; after = rest; split = e }
contains-IsPart p (c ∷ s) h = elim (Bool-cases (begins_with p (c ∷ s))) [
  | inl b ↦ let (rest, e) = rest_of p (c ∷ s) b in record { before = []; after = rest; split = e }
  | inr b ↦
      let found = contains-IsPart p s (rw b at h) in
      record {
        before = c ∷ found.before;
        after = found.after;
        split = ap (λ (xs : List ℕ). c ∷ xs) found.split;
      }
]

contains-append : (before p after : List ℕ) → contains p (before ++ (p ++ after)) ≡ true
unfolding contains
contains-append [] [] [] = begins_with-append [] []
contains-append [] [] (c ∷ after) = ground (arith, begins_with-append [] (c ∷ after))
contains-append [] (b ∷ p) after = ground (arith, begins_with-append (b ∷ p) after)
contains-append (c ∷ before) p after = ground (arith, contains-append before p after)

pub IsPart-contains : (p s : List ℕ) → IsPart p s → contains p s ≡ true
IsPart-contains p s h = ap (contains p) h.split ∙ contains-append h.before p h.after

module _ (sprintf : Sprintf) (utf8 : String → List ℕ) (client : HttpClient) (m : Monitor) where
  -- A response below 400 with the keyword in the first megabyte of its body.
  pub record IsFound (url : String) : Type 0 where
    pub reply : Response
    pub received : IsAnswered client url m.timeout_ms reply
    pub bytes : List ℕ
    pub read : reply.body ≡ ok bytes
    pub accepted : reply.status_code <ℤ pos 400
    pub found : IsPart (utf8 m.expected_keyword) (take body_limit bytes)

  abbrev Verdict : String → CheckOutcome → Type 0
  Verdict url o =
      (IsFound url × (o.status ≡ status_up)) ⊎ ((¬ IsFound url) × (o.status ≡ status_down))

  same_reply : {a b : Response} (x : Result Response) → x ≡ ok a → x ≡ ok b → a ≡ b
  same_reply x p q = cc

  body-Verdict :
      (url : String) (r : Response) (bytes : List ℕ) (latency : ℕ)
      → IsAnswered client url m.timeout_ms r
      → r.body ≡ ok bytes
      → Verdict url (keyword_verdict sprintf utf8 m r.status_code (take body_limit bytes) latency)
  unfolding keyword_verdict
  body-Verdict url r bytes latency received read =
      let reply : (g : IsFound url) → g.reply ≡ r =
        λ g. same_reply (client.fetch url m.timeout_ms).0 g.received.answered received.answered in
      let same_bytes : (g : IsFound url) → g.bytes ≡ bytes =
        λ g. ok-injective (sym g.read ∙ ap (λ (x : Response). x.body) (reply g) ∙ read) in
      elim (Bool-cases (leb_ℤ (pos 400) r.status_code)) [
        | inl bad ↦ rw bad (
            inr (
              λ g.
                  let low : r.status_code <ℤ pos 400 =
                    subst (λ (x : Response). x.status_code <ℤ pos 400) (reply g) g.accepted in
                  ground arith,
              refl,
            ))
        | inr good ↦
            elim (Bool-cases (contains (utf8 m.expected_keyword) (take body_limit bytes))) [
              | inl found ↦
                  rw (good, found)
                    (inl (
                      record {
                        reply = r;
                        received = received;
                        bytes = bytes;
                        read = read;
                        accepted = ground arith;
                        found =
                            contains-IsPart (utf8 m.expected_keyword) (take body_limit bytes) found;
                      },
                      refl,
                    ))
              | inr missing ↦
                  rw (good, missing)
                    (inr (
                      λ g.
                          let there =
                            IsPart-contains (utf8 m.expected_keyword) (take body_limit bytes) (
                              subst (λ b. IsPart (utf8 m.expected_keyword) (take body_limit b))
                                (same_bytes g) g.found) in
                          cc (there, missing),
                      refl,
                    ))
            ]
      ]

  read-Verdict :
      (url : String) (r : Response) (body : Result (List ℕ)) (latency : ℕ)
      → IsAnswered client url m.timeout_ms r
      → r.body ≡ body
      → Verdict url (keyword_read sprintf utf8 m r.status_code latency body)
  unfolding keyword_read
  read-Verdict url r (ok bytes) latency received e = body-Verdict url r bytes latency received e
  read-Verdict url r (err x) latency received e = inr (
    λ g.
        let same : g.reply ≡ r =
          same_reply (client.fetch url m.timeout_ms).0 g.received.answered received.answered in
        let body : g.reply.body ≡ err x = ap (λ (y : Response). y.body) same ∙ e in
        cc (g.read, body),
    refl,
  )

  fetched-Verdict :
      (url : String) (x : Result Response × ℕ)
      → client.new_request url ≡ ok tt
      → client.fetch url m.timeout_ms ≡ x
      → Verdict url (keyword_outcome sprintf utf8 m x)
  unfolding keyword_outcome
  fetched-Verdict url (ok r, latency) made e =
      read-Verdict url r r.body latency
        (record { made = made; answered = ap (λ (y : Result Response × ℕ). y.0) e }) refl
  fetched-Verdict url (err x, latency) made e = inr (λ g. cc (g.received.answered, e), refl)

  requested-Verdict :
      (url : String) (y : Result (Unit {0}))
      → client.new_request url ≡ y
      → Verdict url (keyword_requested sprintf utf8 client m url y)
  unfolding keyword_requested
  requested-Verdict url (ok tt) e = fetched-Verdict url _ e refl
  requested-Verdict url (err x) e = inr (λ g. cc (g.received.made, e), refl)

  of-Verdict :
      (url : String) (o : CheckOutcome)
      → Verdict url o
      → ((o.status ≡ status_up) ↔ IsFound url) × ((o.status ≡ status_up) ⊎ (o.status ≡ status_down))
  of-Verdict url o (inl (g, e)) = ((λ _. g, λ _. e), inl e)
  of-Verdict url o (inr (none_found, e)) =
      ((λ u. absurd (down_ne_up (sym e ∙ u)), λ g. absurd (none_found g)), inr e)

  -- The keyword check reports up exactly if the request is made and answered with a code below
  -- 400, whatever status the monitor expects, and the bytes of the keyword stand somewhere in the
  -- first megabyte of the body, which is read without an error; otherwise it reports down.
  pub keyword_up :
      (((check_keyword sprintf utf8 client m).status ≡ status_up)
        ↔ IsFound (keyword_url sprintf utf8 m))
      × (((check_keyword sprintf utf8 client m).status ≡ status_up)
          ⊎ ((check_keyword sprintf utf8 client m).status ≡ status_down))
  unfolding check_keyword
  keyword_up =
      of-Verdict _ (check_keyword sprintf utf8 client m)
        (requested-Verdict (keyword_url sprintf utf8 m) _ refl)
