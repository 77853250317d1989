-- ===== src/Scheduler/Goroutines.antt =====
-- internal/agent/scheduler.go: the goroutines that the scheduler has started and not cancelled.
use ping_mesh.Prelude.{
  ◌≡◌, refl, sym, ap, ap₂, subst, ◌∙◌, ℕ, suc, ◌<◌, String, Bool, true, false, List, [], ◌∷◌, some,
  Bool-cases, inl, inr, ◌==◌, eq_iff, if◌then◌else◌, nat_eq, arith,
}
use ping_mesh.Db.{find, has, delete, IsUnique}
use ping_mesh.Scheduler.Table.{Cancel, Loop, cancel_key, change_loop}

abbrev pub cancel_of : Loop → Cancel
cancel_of l = record { monitor_id = l.monitor_id; loop = l.number }

-- What cancels the loops that are not cancelled.
unfoldable pub live : List Loop → List Cancel
live [] = []
live (l ∷ ls) = if l.cancelled then live ls else cancel_of l ∷ live ls

-- The numbers of the loops fall.
abbrev pub IsNumbered : ℕ → List Loop → Type 0
IsNumbered n [] = Unit
IsNumbered n (l ∷ ls) = (l.number < n) × IsNumbered l.number ls

-- A change that leaves the number, the monitor and the cancellation.
abbrev pub IsMild : (Loop → Loop) → Type 0
IsMild f = (l : Loop) → (cancel_of (f l) ≡ cancel_of l) × ((f l).cancelled ≡ l.cancelled)

live_one :
    (l l' : Loop) (ls ls' : List Loop)
    → cancel_of l' ≡ cancel_of l
    → l'.cancelled ≡ l.cancelled
    → live ls' ≡ live ls
    → live (l' ∷ ls') ≡ live (l ∷ ls)
unfolding live
live_one l l' ls ls' p q e = ground arith

pub live-change_loop :
    (k : ℕ) (f : Loop → Loop) (ls : List Loop) → IsMild f → live (change_loop k f ls) ≡ live ls
unfolding change_loop
live-change_loop k f [] h = refl
live-change_loop k f (l ∷ ls) h = elim (Bool-cases (nat_eq l.number k)) [
  | inl e ↦
      rw e (live_one l (f l) ls (change_loop k f ls) (h l).0 (h l).1 (live-change_loop k f ls h))
  | inr e ↦ rw e (live_one l l ls (change_loop k f ls) refl refl (live-change_loop k f ls h))
]

pub change_loop-IsNumbered :
    (k n : ℕ) (f : Loop → Loop) (ls : List Loop)
    → ((l : Loop) → (f l).number ≡ l.number)
    → IsNumbered n ls
    → IsNumbered n (change_loop k f ls)
unfolding change_loop
change_loop-IsNumbered k n f [] h i = tt
change_loop-IsNumbered k n f (l ∷ ls) h i = elim (Bool-cases (nat_eq l.number k)) [
  | inl e ↦ rw e (
    omega (arith, h l, i.0),
    subst (λ m. IsNumbered m (change_loop k f ls)) (sym (h l))
        (change_loop-IsNumbered k l.number f ls h i.1),
  )
  | inr e ↦ rw e (i.0, change_loop-IsNumbered k l.number f ls h i.1)
]

-- The loops that go on have numbers below the bound.
live_below :
    (n : ℕ) (id : String) (ls : List Loop) (c : Cancel)
    → IsNumbered n ls
    → find cancel_key id (live ls) ≡ some c
    → c.loop < n
unfolding live find
live_below n id [] c i e = cc
live_below n id (l ∷ ls) c i e = ground (arith, live_below l.number id ls c)

-- A number that is not there changes nothing.
pub change_above :
    (n k : ℕ) (f : Loop → Loop) (ls : List Loop)
    → IsNumbered n ls
    → n < suc k
    → change_loop k f ls ≡ ls
unfolding change_loop
change_above n k f [] i h = refl
change_above n k f (l ∷ ls) i h =
    ap₂ (λ (x : Loop) (xs : List Loop). x ∷ xs) (ground arith)
      (change_above l.number k f ls i.1 (omega arith))

pub delete-absent :
    {A : Type 0} (key : A → String) (id : String) (rs : List A)
    → has key id rs ≡ false
    → delete key id rs ≡ rs
unfolding has delete
delete-absent key id [] h = refl
delete-absent key id (r ∷ rs) h = ground (arith, delete-absent key id rs)

live_dead : (l : Loop) (ls : List Loop) → l.cancelled ≡ true → live (l ∷ ls) ≡ live ls
unfolding live
live_dead l ls d = rw d

pub live_on :
    (l : Loop) (ls : List Loop) → l.cancelled ≡ false → live (l ∷ ls) ≡ cancel_of l ∷ live ls
unfolding live
live_on l ls d = rw d

-- A loop that was cancelled before, cancelled or not.
cancelled_still :
    (b : Bool) (l : Loop)
    → l.cancelled ≡ true
    → (if b then record l { cancelled = true } else l).cancelled ≡ true
cancelled_still true l d = refl
cancelled_still false l d = d

live-cancel_on :
    (n : ℕ) (id : String) (l : Loop) (ls : List Loop) (c : Cancel)
    → IsNumbered n (l ∷ ls)
    → IsUnique cancel_key (cancel_of l ∷ live ls)
    → l.cancelled ≡ false
    → find cancel_key id (cancel_of l ∷ live ls) ≡ some c
    → (find cancel_key id (live ls) ≡ some c
        → live (change_loop c.loop (λ l. record l { cancelled = true }) ls)
          ≡ delete cancel_key id (live ls))
    → live (change_loop c.loop (λ l. record l { cancelled = true }) (l ∷ ls))
      ≡ delete cancel_key id (cancel_of l ∷ live ls)
unfolding change_loop find delete
live-cancel_on n id l ls c i u d e rest = elim (Bool-cases (l.monitor_id == id)) [
  | inl same ↦
      let found : cancel_of l ≡ c = cc (rw same at e) in
      let number : c.loop ≡ l.number = sym (ap (λ (x : Cancel). x.loop) found) in
      let hit : nat_eq l.number c.loop ≡ true = ground (arith, number) in
      rw (same, hit)
        (live_dead (record l { cancelled = true })
            (change_loop c.loop (λ x. record x { cancelled = true }) ls) refl
          ∙ ap live (
              change_above l.number c.loop (λ x. record x { cancelled = true }) ls i.1
                (omega (arith, number)))
          ∙ sym
              (delete-absent cancel_key id (live ls) (rw (← (eq_iff l.monitor_id id).0 same) u.0)))
  | inr other ↦
      let found : find cancel_key id (live ls) ≡ some c = rw other at e in
      let differs : nat_eq l.number c.loop ≡ false =
        ground (arith, live_below l.number id ls c i.1 found) in
      rw (other, differs) (live_on l _ d ∙ ap (λ (cs : List Cancel). cancel_of l ∷ cs) (rest found))
]

live-nil : (id : String) → live [] ≡ delete cancel_key id (live [])
unfolding live delete
live-nil id = refl

-- Cancelling the loop that is found for a monitor takes out that monitor's entry.
pub live-cancel :
    (n : ℕ) (id : String) (ls : List Loop) (c : Cancel)
    → IsNumbered n ls
    → IsUnique cancel_key (live ls)
    → find cancel_key id (live ls) ≡ some c
    → live (change_loop c.loop (λ l. record l { cancelled = true }) ls)
      ≡ delete cancel_key id (live ls)
unfolding change_loop
live-cancel n id [] c i u e = live-nil id
live-cancel n id (l ∷ ls) c i u e = elim (Bool-cases l.cancelled) [
  | inl d ↦
      live_dead _ (change_loop c.loop (λ l. record l { cancelled = true }) ls)
        (cancelled_still (nat_eq l.number c.loop) l d)
      ∙ live-cancel l.number id ls c i.1 (subst (IsUnique cancel_key) (live_dead l ls d) u)
          (sym (ap (find cancel_key id) (live_dead l ls d)) ∙ e)
      ∙ sym (ap (delete cancel_key id) (live_dead l ls d))
  | inr d ↦
      live-cancel_on n id l ls c i (subst (IsUnique cancel_key) (live_on l ls d) u) d
        (sym (ap (find cancel_key id) (live_on l ls d)) ∙ e)
        (λ f. live-cancel l.number id ls c i.1 (subst (IsUnique cancel_key) (live_on l ls d) u).1 f)
      ∙ sym (ap (delete cancel_key id) (live_on l ls d))
]
