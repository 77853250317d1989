-- ===== src/Checker/Verdicts/Names.antt =====
-- internal/checker/dns.go and checker.go: the answers of a name server, and the checker for a type.
use ping_mesh.Prelude.{
  ◌≡◌, ◌↔◌, ◌⊎◌, ap₂, map, codes, inl, inr, refl, sym, ap, subst, ◌∙◌, ℕ, pos, eq_ℤ, eq_ℤ-sound,
  String, true, false, List, [], ◌∷◌, any, Elem, Result, ok, err, ok-injective, Bool-cases, ◌==◌,
  eq_iff, eq_refl, arith,
}
use ping_mesh.Model.{Monitor, status_up, status_down}
use ping_mesh.Checker.Outcome.{Sprintf, CheckOutcome}
use ping_mesh.Checker.Dns.{
  DnsReply, DnsClient, RecordType, type_a, type_aaaa, type_cname, type_mx, type_txt, upper,
  same_codes, is_upper_of, answer_texts, is_expected, record_type, with_dot, dns_server,
  dns_verdict, dns_outcome, check_dns_target,
}
use ping_mesh.Checker.Verdicts.Web.{down_ne_up}

pub any-Elem : (s : String) (xs : List String) → any (λ t. t == s) xs ≡ true → Elem s xs
any-Elem s [] h = cc
any-Elem s (x ∷ xs) h = elim (Bool-cases (x == s)) [
  | inl e ↦ inl ((eq_iff x s).0 e)
  | inr e ↦ inr (any-Elem s xs (rw e at h))
]

pub Elem-any : (s : String) (xs : List String) → Elem s xs → any (λ t. t == s) xs ≡ true
Elem-any s [] h = elim h [ ]
Elem-any s (x ∷ xs) (inl e) = rw (e, eq_refl)
Elem-any s (x ∷ xs) (inr h) = ground (arith, Elem-any s xs h)

-- The text is the name in capital or small letters.
abbrev pub Spells : String → String → Type 0
Spells name s = map upper (codes s) ≡ codes name

-- The type of record that a text asks for: every text but four asks for A.
abbrev pub AsksFor : String → RecordType → Type 0
AsksFor s type_aaaa = Spells "AAAA" s
AsksFor s type_cname = Spells "CNAME" s
AsksFor s type_mx = Spells "MX" s
AsksFor s type_txt = Spells "TXT" s
AsksFor s type_a =
    (¬ Spells "AAAA" s) × (¬ Spells "CNAME" s) × (¬ Spells "MX" s) × (¬ Spells "TXT" s)

same_codes_sound : (cs ds : List ℕ) → same_codes cs ds ≡ true → cs ≡ ds
same_codes_sound [] [] e = refl
same_codes_sound [] (d ∷ ds) e = absurd (cc)
same_codes_sound (c ∷ cs) [] e = absurd (cc)
same_codes_sound (c ∷ cs) (d ∷ ds) e =
    let head : c ≡ d = ground arith in
    let tail : same_codes cs ds ≡ true = ground arith in
    ap₂ (λ (x : ℕ) (xs : List ℕ). x ∷ xs) head (same_codes_sound cs ds tail)

same_codes_refl : (cs : List ℕ) → same_codes cs cs ≡ true
same_codes_refl [] = refl
same_codes_refl (c ∷ cs) = ground (arith, same_codes_refl cs)

spelled : (name s : String) → is_upper_of name s ≡ true → Spells name s
spelled name s e = same_codes_sound (map upper (codes s)) (codes name) e

not_spelled : (name s : String) → is_upper_of name s ≡ false → ¬ Spells name s
not_spelled name s e h =
    let t : is_upper_of name s ≡ true = rw h (same_codes_refl (codes name)) in cc (t, e)

record_type-AsksFor : (s : String) → AsksFor s (record_type s)
unfolding record_type
record_type-AsksFor s = elim (Bool-cases (is_upper_of "AAAA" s)) [
  | inl e ↦ rw e (spelled "AAAA" s e)
  | inr a ↦ elim (Bool-cases (is_upper_of "CNAME" s)) [
    | inl e ↦ rw (a, e) (spelled "CNAME" s e)
    | inr c ↦ elim (Bool-cases (is_upper_of "MX" s)) [
      | inl e ↦ rw (a, c, e) (spelled "MX" s e)
      | inr m ↦ elim (Bool-cases (is_upper_of "TXT" s)) [
        | inl e ↦ rw (a, c, m, e) (spelled "TXT" s e)
        | inr t ↦
            rw (a, c, m, t)
              (
                not_spelled "AAAA" s a,
                not_spelled "CNAME" s c,
                not_spelled "MX" s m,
                not_spelled "TXT" s t,
              )
      ]
    ]
  ]
]

module _ (sprintf : Sprintf) (join : List String → String) (m : Monitor) where
  -- The monitor expects nothing, or one of the texts.
  abbrev pub IsListed : List String → Type 0
  IsListed found = (m.dns_expected ≡ "") ⊎ Elem m.dns_expected found

  is_expected-IsListed :
      (found : List String) → (is_expected sprintf join m found ≡ true) ↔ IsListed found
  unfolding is_expected
  is_expected-IsListed found = elim (Bool-cases (m.dns_expected == "")) [
    | inl e ↦ rw e (λ _. inl ((eq_iff m.dns_expected "").0 e), λ _. refl)
    | inr e ↦ rw e (
      λ h. inr (any-Elem m.dns_expected found h),
      λ h. elim h [
        | inl n ↦ ground (arith, eq_iff m.dns_expected "")
        | inr n ↦ Elem-any m.dns_expected found n
      ],
    )
  ]

  module _ (client : DnsClient) where
    abbrev sent : Result DnsReply × ℕ
    sent =
        client.exchange (dns_server sprintf join m) (with_dot m.target)
          (record_type m.dns_record_type) m.timeout_ms

    -- The server answers without an error code, and with what the monitor expects.
    pub record IsResolved : Type 0 where
      pub reply : DnsReply
      pub received :
          (client.exchange
            (dns_server sprintf join m)
            (with_dot m.target)
            (record_type m.dns_record_type)
            m.timeout_ms).0
          ≡ ok reply
      pub no_error : reply.rcode ≡ pos 0
      pub listed : IsListed (answer_texts sprintf join reply.answers)

    abbrev Verdict : CheckOutcome → Type 0
    Verdict o = (IsResolved × (o.status ≡ status_up)) ⊎ ((¬ IsResolved) × (o.status ≡ status_down))

    outcome-Verdict :
        (x : Result DnsReply × ℕ) → sent ≡ x → Verdict (dns_outcome sprintf join client m x)
    unfolding dns_outcome dns_verdict
    outcome-Verdict (err e, latency) s = inr (λ g. cc (g.received, s), refl)
    outcome-Verdict (ok reply, latency) s =
        let same : (g : IsResolved) → g.reply ≡ reply =
          λ g. ok-injective (sym g.received ∙ ap (λ (y : Result DnsReply × ℕ). y.0) s) in
        elim (Bool-cases (eq_ℤ reply.rcode (pos 0))) [
          | inl zero_code ↦
              elim (Bool-cases
                (is_expected sprintf join m (answer_texts sprintf join reply.answers))) [
                  | inl listed ↦
                      rw (zero_code, listed)
                        (inl (
                          record {
                            reply = reply;
                            received = ap (λ (y : Result DnsReply × ℕ). y.0) s;
                            no_error = eq_ℤ-sound reply.rcode (pos 0) zero_code;
                            listed =
                                (is_expected-IsListed (answer_texts sprintf join reply.answers)).0
                                  listed;
                          },
                          refl,
                        ))
                  | inr missing ↦
                      rw (zero_code, missing)
                        (inr (
                          λ g.
                              let there =
                                (is_expected-IsListed (answer_texts sprintf join reply.answers)).1 (
                                  subst
                                    (λ (y : DnsReply).
                                      IsListed (answer_texts sprintf join y.answers))
                                    (same g) g.listed) in
                              cc (there, missing),
                          refl,
                        ))
                ]
          | inr bad ↦ rw bad (
              inr (
                λ g.
                    let none_bad : reply.rcode ≡ pos 0 =
                      subst (λ (y : DnsReply). y.rcode ≡ pos 0) (same g) g.no_error in
                    let clash : eq_ℤ reply.rcode (pos 0) ≡ true = rw none_bad refl in
                    cc (clash, bad),
                refl,
              ))
        ]

    of-Verdict :
        (o : CheckOutcome)
        → Verdict o
        → ((o.status ≡ status_up) ↔ IsResolved)
          × ((o.status ≡ status_up) ⊎ (o.status ≡ status_down))
    of-Verdict o (inl (g, e)) = ((λ _. g, λ _. e), inl e)
    of-Verdict o (inr (unresolved, e)) =
        ((λ u. absurd (down_ne_up (sym e ∙ u)), λ g. absurd (unresolved g)), inr e)

    -- The DNS check reports up exactly if the server answers without an error code and, where the
    -- monitor expects a text, the text is among those of the answers; otherwise it reports down.
    -- The query asks for AAAA, CNAME, MX or TXT where the monitor names that type, in capital or
    -- small letters, and for A where it names any other, NS and SOA included.
    pub dns_up :
        (((check_dns_target sprintf join client m).status ≡ status_up) ↔ IsResolved)
        × (((check_dns_target sprintf join client m).status ≡ status_up)
            ⊎ ((check_dns_target sprintf join client m).status ≡ status_down))
        × AsksFor m.dns_record_type (record_type m.dns_record_type)
    unfolding check_dns_target
    dns_up =
        let verdict =
          of-Verdict (check_dns_target sprintf join client m) (outcome-Verdict _ refl) in
        (verdict.0, verdict.1, record_type-AsksFor m.dns_record_type)
