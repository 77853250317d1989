-- ===== src/Checker/Verdicts/Types.antt =====
-- internal/checker/checker.go: the checker for a type.
use ping_mesh.Prelude.{
  ◌≡◌, inl, inr, refl, subst, false, List, [], ◌∷◌, Elem, any, ◌⊎◌, ok, err, message, wrapped, ◌==◌,
  eq_iff, Bool-cases, arith,
}
use ping_mesh.Model.{
  CheckType, check_icmp, check_tcp, check_http, check_https, check_dns, check_http_keyword,
}
use ping_mesh.Checker.Registry.{
  Checker, icmp_checker, tcp_checker, dns_checker, keyword_checker, http_checker, type_of, get,
  register_all,
}
use ping_mesh.Checker.Verdicts.Names.{any-Elem, Elem-any}

-- The types of check that the program has.
abbrev pub check_types : List CheckType
check_types =
    check_icmp ∷ check_tcp ∷ check_http ∷ check_https ∷ check_dns ∷ check_http_keyword ∷ []

abbrev Answers : CheckType → Type 0
Answers t = (c : Checker) × (get t (register_all []) ≡ ok c) × (type_of c ≡ t)

registered : (t : CheckType) → Elem t check_types → Answers t
unfolding get register_all type_of
registered t (inl e) = subst Answers e (icmp_checker, refl, refl)
registered t (inr (inl e)) = subst Answers e (tcp_checker, refl, refl)
registered t (inr (inr (inl e))) = subst Answers e (http_checker check_http, refl, refl)
registered t (inr (inr (inr (inl e)))) = subst Answers e (http_checker check_https, refl, refl)
registered t (inr (inr (inr (inr (inl e))))) = subst Answers e (dns_checker, refl, refl)
registered t (inr (inr (inr (inr (inr (inl e)))))) = subst Answers e (keyword_checker, refl, refl)
registered t (inr (inr (inr (inr (inr (inr e)))))) = absurd e

unknown :
    (t : CheckType)
    → ¬ Elem t check_types
    → get t (register_all []) ≡ err (wrapped "unknown check type" (message t))
unfolding get register_all
unknown t h =
    let other : (key : CheckType) → (key ≡ t → ⊥) → (key == t) ≡ false =
      λ key differs. ground (arith, eq_iff key t, differs) in
    rw (
      other check_http_keyword (λ e. h (inr (inr (inr (inr (inr (inl e))))))),
      other check_dns (λ e. h (inr (inr (inr (inr (inl e)))))),
      other check_https (λ e. h (inr (inr (inr (inl e))))),
      other check_http (λ e. h (inr (inr (inl e)))),
      other check_tcp (λ e. h (inr (inl e))),
      other check_icmp (λ e. h (inl e)),
    )

-- The registry of the six checkers.
pub registry_lem :
    (t : CheckType)
    → (Elem t check_types → (c : Checker) × (get t (register_all []) ≡ ok c) × (type_of c ≡ t))
      × (¬ Elem t check_types
          → get t (register_all []) ≡ err (wrapped "unknown check type" (message t)))
registry_lem t = (registered t, unknown t)

pub check_types-cases : (t : CheckType) → Elem t check_types ⊎ (¬ Elem t check_types)
check_types-cases t = elim (Bool-cases (any (λ u. u == t) check_types)) [
  | inl e ↦ inl (any-Elem t check_types e)
  | inr e ↦ inr (λ h. cc (Elem-any t check_types h, e))
]
