-- ===== src/Consensus/Lifecycle.antt =====
-- The life of an incident in the database: suspect, confirmed, resolved, and never back.
use ping_mesh.Prelude.{
  ◌≡◌, ◌≢◌, refl, sym, subst, ◌∙◌, String, true, List, [], ◌∷◌, ◌++◌, arith, ◌==◌, All, Bool-cases,
  eq_iff, inl, inr, get_elem?, length, some, ap,
}
use ping_mesh.Model.{incident_suspect, incident_confirmed, incident_resolved}
use ping_mesh.Db.{int_or_zero, IncidentRow, update, incident_key}

-- What no step changes.
pub record IsSame (r s : IncidentRow) : Type 0 where
  pub id : s.id ≡ r.id
  pub monitor_id : s.monitor_id ≡ r.monitor_id
  pub started_at : s.started_at ≡ r.started_at
  pub created_at : s.created_at ≡ r.created_at

-- A time of 0 and NULL are the same to the program.
pub data Step (r s : IncidentRow) : Type 0 where
  confirm :
      IsSame r s
      → r.status ≡ incident_suspect
      → s.status ≡ incident_confirmed
      → int_or_zero s.resolved_at ≡ int_or_zero r.resolved_at
      → Step r s
  resolve :
      IsSame r s
      → r.status ≢ incident_resolved
      → s.status ≡ incident_resolved
      → int_or_zero s.confirmed_at ≡ int_or_zero r.confirmed_at
      → s.confirming_nodes ≡ r.confirming_nodes
      → Step r s

pub data Life (r : IncidentRow) : IncidentRow → Type 0 where
  here : Life r r
  next : {s t : IncidentRow} → Life r s → Step s t → Life r t

pub Life-trans : {r s t : IncidentRow} → Life r s → Life s t → Life r t
Life-trans l here = l
Life-trans l (next m st) = next (Life-trans l m) st

suspect-ne-resolved : ◌≢◌ {A = String} incident_suspect incident_resolved
suspect-ne-resolved = ground (arith, eq_iff incident_suspect incident_resolved)

Step-not_resolved : {r s : IncidentRow} → Step r s → r.status ≢ incident_resolved
Step-not_resolved (confirm same before after kept) e = suspect-ne-resolved (sym before ∙ e)
Step-not_resolved (resolve same before after kept nodes) e = before e

-- A resolved incident stays as it is.
pub Life-resolved : {r s : IncidentRow} → Life r s → r.status ≡ incident_resolved → s ≡ r
Life-resolved here e = refl
Life-resolved (next l st) e =
    absurd
      (Step-not_resolved st (subst (λ q. q.status ≡ incident_resolved) (sym (Life-resolved l e)) e))

-- A row that began as a suspect incident.
pub record IsBorn (r : IncidentRow) : Type 0 where
  pub first : IncidentRow
  pub suspect : first.status ≡ incident_suspect
  pub life : Life first r

-- The rows of before live on in their places, and the rows behind them are new.
abbrev pub Evolves : List IncidentRow → List IncidentRow → Type 0
Evolves [] ss = All IsBorn ss
Evolves (r ∷ rs) [] = ⊥
Evolves (r ∷ rs) (s ∷ ss) = Life r s × Evolves rs ss

pub Evolves-refl : (rs : List IncidentRow) → Evolves rs rs
Evolves-refl [] = tt
Evolves-refl (r ∷ rs) = (here, Evolves-refl rs)

IsBorn-Evolves : (rs ss : List IncidentRow) → All IsBorn rs → Evolves rs ss → All IsBorn ss
IsBorn-Evolves [] ss b e = e
IsBorn-Evolves (r ∷ rs) [] b e = absurd e
IsBorn-Evolves (r ∷ rs) (s ∷ ss) b e = (
  record { first = b.0.first; suspect = b.0.suspect; life = Life-trans b.0.life e.0 },
  IsBorn-Evolves rs ss b.1 e.1,
)

pub Evolves-trans : (rs ss ts : List IncidentRow) → Evolves rs ss → Evolves ss ts → Evolves rs ts
Evolves-trans [] ss ts e f = IsBorn-Evolves ss ts e f
Evolves-trans (r ∷ rs) [] ts e f = absurd e
Evolves-trans (r ∷ rs) (s ∷ ss) [] e f = absurd f
Evolves-trans (r ∷ rs) (s ∷ ss) (t ∷ ts) e f = (Life-trans e.0 f.0, Evolves-trans rs ss ts e.1 f.1)

pub Evolves-append :
    (rs : List IncidentRow) (r : IncidentRow)
    → r.status ≡ incident_suspect
    → Evolves rs (rs ++ r ∷ [])
Evolves-append [] r e = (record { first = r; suspect = e; life = here }, tt)
Evolves-append (x ∷ rs) r e = (here, Evolves-append rs r e)

-- A resolved incident stays in its place.
pub resolved_in_place :
    (before : List IncidentRow) (r : IncidentRow) (behind ss : List IncidentRow)
    → Evolves (before ++ r ∷ behind) ss
    → r.status ≡ incident_resolved
    → get_elem? ss (length before) ≡ some r
resolved_in_place [] r behind [] e done = elim e [ ]
resolved_in_place [] r behind (s ∷ ss) e done = ap some (Life-resolved e.0 done)
resolved_in_place (b ∷ before) r behind [] e done = elim e [ ]
resolved_in_place (b ∷ before) r behind (s ∷ ss) e done =
    resolved_in_place before r behind ss e.1 done

-- An update whose rows take a step.
pub Evolves-update :
    (id : String) (f : IncidentRow → IncidentRow) (rs : List IncidentRow)
    → All (λ r. (r.id == id) ≡ true → Step r (f r)) rs
    → Evolves rs (update incident_key id f rs)
unfolding update
Evolves-update id f [] h = tt
Evolves-update id f (r ∷ rs) h = elim (Bool-cases (r.id == id)) [
  | inl e ↦ rw e (next here (h.0 e), Evolves-update id f rs h.1)
  | inr e ↦ rw e (here, Evolves-update id f rs h.1)
]
