-- ===== src/Scheduler/Attempts.antt =====
-- internal/agent/scheduler.go: the attempts of one check.
use ping_mesh.Prelude.{
  ◌≡◌, ◌↔◌, ◌⊎◌, inl, inr, refl, sym, ap, subst, ℕ, zero, suc, ◌+◌, ◌-◌, pos_part, String, Error,
  ◌≤◌, ◌<◌, true, false, Result, ok, err, Bool-cases, eq_iff, arith,
}
use ping_mesh.Model.{Monitor, status_up}
use ping_mesh.Checker.{CheckOutcome, Checker, Network, check}
use ping_mesh.Checker.Verdicts.Web.{down_ne_up}
use ping_mesh.Scheduler.Check.{
  Attempt, attempt, attempts_of, attempt_of, is_up_outcome, untried, outcome_of, measure,
}

module _ (probe : ℕ → Result CheckOutcome) where
  -- The loop ended at attempt `k`: each attempt before was made and not up, and this one is up or the
  -- last one that is allowed.
  pub record EndsAt (first last : ℕ) (r : Attempt × ℕ) : Type 0 where
    pub final : ℕ
    pub within : (first ≤ final) × (final ≤ last)
    pub result : r ≡ (attempt_of (probe final), suc final)
    pub early : (j : ℕ) → first ≤ j → j < final → is_up_outcome (probe j) ≡ false
    pub ended : (final ≡ last) ⊎ (is_up_outcome (probe final) ≡ true)

  attempt-EndsAt : (n i : ℕ) (last : Attempt) → EndsAt i (i + n) (attempt probe (suc n) i last)
  unfolding attempt
  attempt-EndsAt zero i last = elim (Bool-cases (is_up_outcome (probe i))) [
    | inl e ↦ rw e (record {
      final = i;
      within = omega arith;
      result = refl;
      early = λ j p q. absurd (omega arith);
      ended = inr e;
    })
    | inr e ↦ rw e (record {
      final = i;
      within = omega arith;
      result = refl;
      early = λ j p q. absurd (omega arith);
      ended = inl (omega arith);
    })
  ]
  attempt-EndsAt (suc n) i last = elim (Bool-cases (is_up_outcome (probe i))) [
    | inl e ↦ rw e (record {
      final = i;
      within = omega arith;
      result = refl;
      early = λ j p q. absurd (omega arith);
      ended = inr e;
    })
    | inr e ↦
        let rest = attempt-EndsAt n (suc i) (attempt_of (probe i)) in
        rw e (record {
          final = rest.final;
          within = omega (arith, rest.within.0, rest.within.1);
          result = rest.result;
          early = λ j p q. ground (arith, rest.early j);
          ended = elim rest.ended [ inl h ↦ inl (omega arith) | inr h ↦ inr h ];
        })
  ]

  -- If any attempt that was allowed is up, the last one that was made is.
  final_up :
      (first last : ℕ) (r : Attempt × ℕ) (end : EndsAt first last r) (j : ℕ)
      → first ≤ j
      → j ≤ last
      → is_up_outcome (probe j) ≡ true
      → is_up_outcome (probe end.final) ≡ true
  final_up first last r end j p q up = elim end.ended [
    | inl e ↦ ground (arith, end.early j)
    | inr u ↦ u
  ]

attempts_of-suc : (m : Monitor) → attempts_of m ≡ suc (pos_part m.retries - 1)
unfolding attempts_of
attempts_of-suc m = ground arith

-- The loop over the attempts ends after at least one attempt and at most the retries of the
-- monitor, or one where they are fewer: the last one is up or is the last that is allowed, those
-- before it were not up, and what is left is the outcome of the last.
pub attempts-EndsAt :
    (probe : ℕ → Result CheckOutcome) (m : Monitor)
    → EndsAt probe 0 (pos_part m.retries - 1) (attempt probe (attempts_of m) 0 untried)
attempts-EndsAt probe m =
    let last : ℕ = pos_part m.retries - 1 in
    subst (λ n. EndsAt probe 0 last (attempt probe n 0 untried)) (sym (attempts_of-suc m))
      (subst (λ k. EndsAt probe 0 k (attempt probe (suc last) 0 untried)) (omega arith)
        (attempt-EndsAt probe last 0 untried))

module _ (error_text : Error → String) where
  attempt_of-up :
      (x : Result CheckOutcome)
      → ((outcome_of error_text (attempt_of x)).status ≡ status_up) ↔ (is_up_outcome x ≡ true)
  attempt_of-up (ok o) =
      (λ e. (eq_iff o.status status_up).1 e, λ e. (eq_iff o.status status_up).0 e)
  attempt_of-up (err e) = (λ u. absurd (down_ne_up u), λ u. cc)

  -- The outcome of a check is up exactly if one of the attempts that the retries allow would be
  -- up.
  pub measure-up :
      (nets : ℕ → Network) (c : Checker) (m : Monitor)
      → ((measure error_text nets c m).status ≡ status_up)
        ↔ ((j : ℕ) × (j < attempts_of m) × (is_up_outcome (check (nets j) c m) ≡ true))
  unfolding measure
  measure-up nets c m =
      let probe = λ (i : ℕ). check (nets i) c m in
      let end = attempts-EndsAt probe m in
      let last_up = attempt_of-up (probe end.final) in
      let left : (attempt probe (attempts_of m) 0 untried).0 ≡ attempt_of (probe end.final) =
        ap (λ (r : Attempt × ℕ). r.0) end.result in
      (
        λ u. (
          end.final,
          omega (arith, attempts_of-suc m, end.within.1),
          last_up.0 (subst (λ (a : Attempt). (outcome_of error_text a).status ≡ status_up) left u),
        ),
        λ (j, below, up).
            subst (λ (a : Attempt). (outcome_of error_text a).status ≡ status_up) (sym left)
              (last_up.1 (
                final_up probe 0 (pos_part m.retries - 1) _ end j (omega arith)
                  (omega (arith, attempts_of-suc m)) up)),
      )
