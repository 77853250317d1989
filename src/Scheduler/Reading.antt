-- ===== src/Scheduler/Reading.antt =====
-- internal/agent/scheduler.go: what a stored result says of the attempts.
use ping_mesh.Prelude.{
  ◌≡◌, ◌≢◌, ◌⊎◌, inl, inr, refl, sym, ap, subst, ℕ, ◌-◌, ◌≤◌, ◌<◌, ℤ, pos, pos_part, String, true,
  false, Result, ok, err, ok-injective, Error, ◌==◌, eq_iff, arith,
}
use ping_mesh.Model.{Monitor, CheckResult, status_up, status_down}
use ping_mesh.Checker.{CheckOutcome, Checker, Network, check}
use ping_mesh.Scheduler.Check.{
  Attempt, attempt, attempts_of, attempt_of, is_up_outcome, untried, outcome_of, measure, result_of,
}
use ping_mesh.Scheduler.Attempts.{attempts-EndsAt}

module _ (error_text : Error → String) where
  -- The result says what the attempt gave: its outcome, or down with the text of its error.
  abbrev pub Tells : Result CheckOutcome → CheckResult → Type 0
  Tells (ok o) r =
      (r.status ≡ o.status)
      × (r.latency_us ≡ o.latency_us)
      × (r.status_code ≡ o.status_code)
      × (r.error ≡ o.error)
  Tells (err e) r =
      (r.status ≡ status_down)
      × (r.latency_us ≡ 0)
      × (r.status_code ≡ pos 0)
      × (r.error ≡ error_text e)

  -- The result says what the last attempt gave, which is the first that is up, or the last that the
  -- retries allow.
  pub record IsReading (probe : ℕ → Result CheckOutcome) (m : Monitor) (r : CheckResult)
      : Type 0 where
    pub final : ℕ
    pub allowed : final ≤ pos_part m.retries - 1
    pub told : Tells (probe final) r
    pub early : (j : ℕ) (o : CheckOutcome) → j < final → probe j ≡ ok o → o.status ≢ status_up
    pub ended : (final ≡ pos_part m.retries - 1) ⊎ (r.status ≡ status_up)

  module _ (node_id id : String) (nets : ℕ → Network) (c : Checker) (m : Monitor) (time : ℤ) where
    abbrev pub reading : CheckResult
    reading = result_of error_text node_id id (measure error_text nets c m) time

    abbrev probes : ℕ → Result CheckOutcome
    probes i = check (nets i) c m

    read_as : Attempt → CheckResult
    read_as a = result_of error_text node_id id (outcome_of error_text a) time

    told-attempt_of : (x : Result CheckOutcome) → Tells x (read_as (attempt_of x))
    unfolding read_as
    told-attempt_of (ok o) = (refl, refl, refl, refl)
    told-attempt_of (err e) = (refl, refl, refl, refl)

    up-attempt_of :
        (x : Result CheckOutcome)
        → is_up_outcome x ≡ true
        → (read_as (attempt_of x)).status ≡ status_up
    unfolding read_as
    up-attempt_of (ok o) e = (eq_iff o.status status_up).0 e
    up-attempt_of (err x) e = absurd (cc)

    not_up :
        (x : Result CheckOutcome) (o : CheckOutcome)
        → is_up_outcome x ≡ false
        → x ≡ ok o
        → o.status ≢ status_up
    not_up (ok y) o e same h =
        let up : (o.status == status_up) ≡ true = (eq_iff o.status status_up).1 h in
        let down : (o.status == status_up) ≡ false =
          subst (λ (z : CheckOutcome). (z.status == status_up) ≡ false) (ok-injective same) e in
        cc (up, down)
    not_up (err x) o e same h = cc

    pub reading-IsReading : IsReading probes m reading
    unfolding measure read_as
    reading-IsReading =
        let end = attempts-EndsAt probes m in
        let left : (attempt probes (attempts_of m) 0 untried).0 ≡ attempt_of (probes end.final) =
          ap (λ (r : Attempt × ℕ). r.0) end.result in
        record {
          final = end.final;
          allowed = end.within.1;
          told =
              subst (λ (a : Attempt). Tells (probes end.final) (read_as a)) (sym left)
                (told-attempt_of (probes end.final));
          early = λ j o below e. not_up (probes j) o (end.early j (omega arith) below) e;
          ended = elim end.ended [
            | inl e ↦ inl e
            | inr u ↦ inr (
                subst (λ (a : Attempt). (read_as a).status ≡ status_up) (sym left)
                  (up-attempt_of (probes end.final) u))
          ];
        }
