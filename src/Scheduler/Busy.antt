-- ===== src/Scheduler/Busy.antt =====
-- internal/agent/scheduler.go: what starting and stopping monitors does to the checks that run.
use ping_mesh.Prelude.{
  ◌≡◌, refl, sym, subst, ◌∙◌, ℕ, ◌+◌, String, Bool, true, false, not, ◌&&◌, ◌||◌, List, [], ◌∷◌,
  any, Option, none, some, Bool-cases, inl, inr, ◌==◌, eq_iff, if◌then◌else◌, nat_eq, arith,
}
use ping_mesh.Model.{Monitor}
use ping_mesh.Db.{find, has, find-delete}
use ping_mesh.Scheduler.Table.{
  Loop, Scheduler, ticker_key, flag_key, start_monitor, change_loop, cancel_loop, stop_monitor,
  start_missing, stop_missing, is_active,
}
use ping_mesh.Scheduler.Loops.{find_loop, is_running, set_running}
use ping_mesh.Scheduler.Goroutines.{IsNumbered, change_above}

abbrev pub one : Bool → ℕ
one true = 1
one false = 0

abbrev pub busy_one : String → Loop → ℕ
busy_one id l = one ((l.monitor_id == id) && l.checking)

-- How many goroutines are in a check of the monitor.
unfoldable pub busy : String → List Loop → ℕ
busy id [] = 0
busy id (l ∷ ls) = busy_one id l + busy id ls

pub busy-change_loop :
    (id : String) (n k : ℕ) (f : Loop → Loop) (ls : List Loop) (l : Loop)
    → IsNumbered n ls
    → find_loop k ls ≡ some l
    → busy id (change_loop k f ls) + busy_one id l ≡ busy id ls + busy_one id (f l)
unfolding busy change_loop find_loop
busy-change_loop id n k f [] l i e = cc
busy-change_loop id n k f (x ∷ ls) l i e = elim (Bool-cases (nat_eq x.number k)) [
  | inl hit ↦
      let same : x ≡ l = cc (rw hit at e) in
      rw (hit, change_above x.number k f ls i.1 (ground arith))
        (subst
          (λ (y : Loop).
            busy_one id (f y) + busy id ls + busy_one id l
            ≡ busy_one id y + busy id ls + busy_one id (f l))
          (sym same) (omega arith))
  | inr miss ↦ rw miss (omega (arith, busy-change_loop id x.number k f ls l i.1 (rw miss at e)))
]

-- A change that leaves the monitor and the check.
pub busy-same :
    (id : String) (k : ℕ) (f : Loop → Loop) (ls : List Loop)
    → ((l : Loop) → busy_one id (f l) ≡ busy_one id l)
    → busy id (change_loop k f ls) ≡ busy id ls
unfolding busy change_loop
busy-same id k f [] h = refl
busy-same id k f (l ∷ ls) h = ground (arith, h l, busy-same id k f ls h)

pub not_before : (b c : Bool) → (b ≡ true → c ≡ true) → c ≡ false → b ≡ false
not_before true c keep gone = cc (keep refl, gone)
not_before false c keep gone = refl

-- The flag of a monitor says whether a check of it runs.
abbrev pub IsExact : String → Scheduler → Type 0
IsExact id s = busy id s.loops ≡ one (is_running id s)

module _ (id : String) where
  pub is_running-set :
      (j : String) (b : Bool) (s : Scheduler)
      → is_running id (set_running j b s) ≡ (if j == id then b else is_running id s)
  unfolding is_running set_running find
  is_running-set j b s = ground (arith, find-delete flag_key j id s.running)

  start_monitor-IsExact :
      (m : Monitor) (s : Scheduler) → IsExact id s → IsExact id (start_monitor m s)
  unfolding start_monitor busy is_running
  start_monitor-IsExact m s h = ground arith

  busy-cancel_loop :
      (s : Scheduler) (o : Option _) → busy id (cancel_loop o s.loops) ≡ busy id s.loops
  unfolding cancel_loop
  busy-cancel_loop s none = refl
  busy-cancel_loop s (some c) = busy-same id c.loop _ s.loops (λ l. refl)

  stop_monitor-IsExact :
      (j : String) (s : Scheduler)
      → (j == id) ≡ false
      → IsExact id s
      → IsExact id (stop_monitor j s)
  unfolding stop_monitor is_running
  stop_monitor-IsExact j s other h =
      busy-cancel_loop s _ ∙ h ∙ ground (arith, find-delete flag_key j id s.running)

  pub start_missing-IsExact :
      (ms : List Monitor) (s : Scheduler) → IsExact id s → IsExact id (start_missing ms s)
  unfolding start_missing
  start_missing-IsExact [] s h = h
  start_missing-IsExact (m ∷ ms) s h =
      start_missing-IsExact ms (if has ticker_key m.id s.timers then s else start_monitor m s)
        (elim (Bool-cases (has ticker_key m.id s.timers)) [
          | inl e ↦ rw e h
          | inr e ↦ rw e (start_monitor-IsExact m s h)
        ])

  not_stopped :
      (ms : List Monitor) (j : String) (later : Bool)
      → is_active ms j ≡ false
      → (((j == id) || later) && not (is_active ms id)) ≡ false
      → (j == id) ≡ false
  not_stopped ms j later e k = elim (Bool-cases (j == id)) [
    | inl same ↦
        let idle : is_active ms id ≡ false =
          subst (λ i. is_active ms i ≡ false) ((eq_iff j id).0 same) e in
        ground (arith, same, idle)
    | inr other ↦ other
  ]

  -- A monitor that is active, or that has no ticker, is not stopped.
  pub stop_missing-IsExact :
      (ms : List Monitor) (ids : List String) (s : Scheduler)
      → (any (λ i. i == id) ids && not (is_active ms id)) ≡ false
      → IsExact id s
      → IsExact id (stop_missing ms ids s)
  unfolding stop_missing
  stop_missing-IsExact ms [] s k h = h
  stop_missing-IsExact ms (j ∷ ids) s k h =
      stop_missing-IsExact ms ids (if is_active ms j then s else stop_monitor j s) (ground arith)
        (elim (Bool-cases (is_active ms j)) [
          | inl e ↦ rw e h
          | inr e ↦
              rw e (stop_monitor-IsExact j s (not_stopped ms j (any (λ i. i == id) ids) e k) h)
        ])
