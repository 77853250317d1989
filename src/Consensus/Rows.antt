-- ===== src/Consensus/Rows.antt =====
-- The rows that an update of an incident hits, and how many of them are active.
use ping_mesh.Prelude.{
  Elem, ℕ, ◌+◌, ◌≤◌, ◌≡◌, sym, ap, subst, ◌∙◌, String, true, false, List, [], ◌∷◌, ◌++◌, arith,
  ◌==◌, eq_iff, eq_refl, All, if◌then◌else◌, inl, inr, keep_if, length,
}
use mathlib.Core.Bool.{false≢true}
use ping_mesh.Db.{IncidentRow, has, update, IsUnique, incident_key}
use ping_mesh.Store.{is_active_for}

has_of_Elem :
    (i : IncidentRow) (rs : List IncidentRow) → Elem i rs → has incident_key i.id rs ≡ true
unfolding has
has_of_Elem i [] h = elim h [ ]
has_of_Elem i (r ∷ rs) (inl e) = rw (e, eq_refl)
has_of_Elem i (r ∷ rs) (inr h) = ground (arith, has_of_Elem i rs h)

none_of_absent :
    (i : IncidentRow) (rs : List IncidentRow)
    → has incident_key i.id rs ≡ false
    → All (λ r. (r.id == i.id) ≡ true → r ≡ i) rs
unfolding has
none_of_absent i [] h = tt
none_of_absent i (r ∷ rs) h = (λ e. ground arith, none_of_absent i rs (ground arith))

clash :
    (i r : IncidentRow) (rs : List IncidentRow)
    → (r.id == i.id) ≡ true
    → has incident_key r.id rs ≡ false
    → Elem i rs
    → ⊥
clash i r rs e absent h =
    false≢true
      (sym absent ∙ ap (λ id. has incident_key id rs) ((eq_iff r.id i.id).0 e) ∙ has_of_Elem i rs h)

-- With unique keys, a row is the only one with its id.
pub only_row :
    (i : IncidentRow) (rs : List IncidentRow)
    → IsUnique incident_key rs
    → Elem i rs
    → All (λ r. (r.id == i.id) ≡ true → r ≡ i) rs
only_row i [] u h = elim h [ ]
only_row i (r ∷ rs) u (inl e) =
    (λ h. e, none_of_absent i rs (subst (λ z. has incident_key z.id rs ≡ false) e u.0))
only_row i (r ∷ rs) u (inr h) = (λ e. absurd (clash i r rs e u.0 h), only_row i rs u.1 h)

-- How many incidents of a monitor are active.
abbrev pub active_count : String → List IncidentRow → ℕ
active_count monitor_id rs = length (keep_if (is_active_for monitor_id) rs)

pub active_count-append_one :
    (m : String) (rs : List IncidentRow) (r : IncidentRow)
    → active_count m (rs ++ r ∷ []) ≡ active_count m rs + (if is_active_for m r then 1 else 0)
active_count-append_one m [] r = ground arith
active_count-append_one m (x ∷ rs) r = ground (arith, active_count-append_one m rs r)

-- An update that wakes no row leaves no more of them active.
pub active_count-update :
    (m id : String) (f : IncidentRow → IncidentRow) (rs : List IncidentRow)
    → All (λ r. (r.id == id) ≡ true → is_active_for m (f r) ≡ true → is_active_for m r ≡ true) rs
    → active_count m (update incident_key id f rs) ≤ active_count m rs
unfolding update
active_count-update m id f [] h = omega arith
active_count-update m id f (r ∷ rs) h = ground (arith, h.0, active_count-update m id f rs h.1)
