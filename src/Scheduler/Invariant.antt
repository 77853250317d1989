-- ===== src/Scheduler/Invariant.antt =====
-- internal/agent/scheduler.go: the invariant of the three maps and the goroutines.
use ping_mesh.Prelude.{
  ◌≡◌, refl, sym, ap, subst, ◌∙◌, ℕ, String, Bool, true, false, ◌||◌, List, [], ◌∷◌, map, any,
  Option, none, some, Option-cases, Bool-cases, inl, inr, ◌==◌, if◌then◌else◌, arith,
}
use ping_mesh.Model.{Monitor}
use ping_mesh.Db.{find, has, delete, IsUnique, IsUnique-delete, has-eq_find}
use ping_mesh.Scheduler.Table.{
  Cancel, Loop, Scheduler, ticker_key, cancel_key, new_loop, new_scheduler, start_monitor,
  change_loop, cancel_loop, stop_monitor, start_missing, stop_missing, is_active, sync_monitors,
  stop,
}
use ping_mesh.Scheduler.Loops.{
  is_running, set_running, tick, begin_check, finish_check, Step, synced, stopped, ticked, began,
  finished, Reach, here, next,
}
use ping_mesh.Scheduler.Goroutines.{
  live, cancel_of, IsNumbered, IsMild, live-change_loop, change_loop-IsNumbered, delete-absent,
  live-cancel, live_on,
}

-- The monitors with a ticker are those with a cancel function, each once, and the cancel functions
-- are those of the goroutines that are not cancelled.
pub record IsSound (s : Scheduler) : Type 0 where
  pub same_keys : map ticker_key s.timers ≡ map cancel_key s.cancels
  pub current : live s.loops ≡ s.cancels
  pub unique : IsUnique cancel_key s.cancels
  pub numbered : IsNumbered s.started s.loops

module _ {A : Type 0} (key : A → String) where
  pub has-map : (id : String) (rs : List A) → has key id rs ≡ any (λ i. i == id) (map key rs)
  unfolding has
  has-map id [] = refl
  has-map id (r ∷ rs) = ap (λ b. (key r == id) || b) (has-map id rs)

  map-delete :
      (id : String) (rs : List A) → map key (delete key id rs) ≡ delete (λ i. i) id (map key rs)
  unfolding delete
  map-delete id [] = refl
  map-delete id (r ∷ rs) = ground (arith, map-delete id rs)

module _ (s : Scheduler) (h : IsSound s) where
  has_cancel : (id : String) → has cancel_key id s.cancels ≡ has ticker_key id s.timers
  has_cancel id =
      has-map cancel_key id s.cancels
      ∙ ap (any (λ i. i == id)) (sym h.same_keys)
      ∙ sym (has-map ticker_key id s.timers)

  start_monitor-IsSound :
      (m : Monitor) → has ticker_key m.id s.timers ≡ false → IsSound (start_monitor m s)
  unfolding start_monitor
  start_monitor-IsSound m absent =
      let free : has cancel_key m.id s.cancels ≡ false = has_cancel m.id ∙ absent in
      rw
        (
          delete-absent ticker_key m.id s.timers absent,
          delete-absent cancel_key m.id s.cancels free,
        )
        (record {
          same_keys = ap (λ (ids : List String). m.id ∷ ids) h.same_keys;
          current =
              live_on (new_loop s.started m.id) s.loops refl
              ∙ ap (λ (cs : List Cancel). cancel_of (new_loop s.started m.id) ∷ cs) h.current;
          unique = (free, h.unique);
          numbered = (omega arith, h.numbered);
        })

  cancel_loop-live :
      (id : String)
      → live (cancel_loop (find cancel_key id s.cancels) s.loops) ≡ delete cancel_key id s.cancels
  unfolding cancel_loop
  cancel_loop-live id = elim (Option-cases (find cancel_key id s.cancels)) [
    | inl e ↦ rw e (
        h.current
        ∙ sym (
            delete-absent cancel_key id s.cancels
              (has-eq_find cancel_key id s.cancels ∙ rw e refl)))
    | inr (c, e) ↦ rw e (
        live-cancel s.started id s.loops c h.numbered
          (subst (IsUnique cancel_key) (sym h.current) h.unique)
          (ap (find cancel_key id) h.current ∙ e)
        ∙ ap (delete cancel_key id) h.current)
  ]

  cancel_loop-IsNumbered : (o : Option Cancel) → IsNumbered s.started (cancel_loop o s.loops)
  unfolding cancel_loop
  cancel_loop-IsNumbered none = h.numbered
  cancel_loop-IsNumbered (some c) =
      change_loop-IsNumbered c.loop s.started _ s.loops (λ l. refl) h.numbered

  stop_monitor-IsSound : (id : String) → IsSound (stop_monitor id s)
  unfolding stop_monitor
  stop_monitor-IsSound id = record {
    same_keys =
        map-delete ticker_key id s.timers
        ∙ ap (delete (λ i. i) id) h.same_keys
        ∙ sym (map-delete cancel_key id s.cancels);
    current = cancel_loop-live id;
    unique = IsUnique-delete cancel_key id s.cancels h.unique;
    numbered = cancel_loop-IsNumbered (find cancel_key id s.cancels);
  }

  -- A change of one loop that leaves its number, its monitor and its cancellation.
  change_loop-IsSound :
      (k : ℕ) (f : Loop → Loop) → IsMild f → IsSound (record s { loops = change_loop k f s.loops })
  change_loop-IsSound k f mild = record {
    same_keys = h.same_keys;
    current = live-change_loop k f s.loops mild ∙ h.current;
    unique = h.unique;
    numbered =
        change_loop-IsNumbered k s.started f s.loops (λ l. ap (λ (c : Cancel). c.loop) (mild l).0)
          h.numbered;
  }

  set_running-IsSound : (id : String) (b : Bool) → IsSound (set_running id b s)
  unfolding set_running
  set_running-IsSound id b = record {
    same_keys = h.same_keys;
    current = h.current;
    unique = h.unique;
    numbered = h.numbered;
  }

start_missing-IsSound :
    (ms : List Monitor) (s : Scheduler) → IsSound s → IsSound (start_missing ms s)
unfolding start_missing
start_missing-IsSound [] s h = h
start_missing-IsSound (m ∷ ms) s h =
    start_missing-IsSound ms (if has ticker_key m.id s.timers then s else start_monitor m s)
      (elim (Bool-cases (has ticker_key m.id s.timers)) [
        | inl e ↦ rw e h
        | inr e ↦ rw e (start_monitor-IsSound s h m e)
      ])

stop_missing-IsSound :
    (ms : List Monitor) (ids : List String) (s : Scheduler)
    → IsSound s
    → IsSound (stop_missing ms ids s)
unfolding stop_missing
stop_missing-IsSound ms [] s h = h
stop_missing-IsSound ms (id ∷ ids) s h =
    stop_missing-IsSound ms ids (if is_active ms id then s else stop_monitor id s)
      (elim (Bool-cases (is_active ms id)) [
        | inl e ↦ rw e h
        | inr e ↦ rw e (stop_monitor-IsSound s h id)
      ])

begin_check-IsSound : (l : Loop) (s : Scheduler) → IsSound s → IsSound (begin_check l s)
unfolding begin_check
begin_check-IsSound l s h = elim (Bool-cases (is_running l.monitor_id s)) [
  | inl e ↦ rw e (change_loop-IsSound s h l.number _ (λ x. (refl, refl)))
  | inr e ↦ rw e (
      set_running-IsSound _ (change_loop-IsSound s h l.number _ (λ x. (refl, refl))) l.monitor_id
        true)
]

pub Step-IsSound : {s t : Scheduler} → Step s t → IsSound s → IsSound t
unfolding sync_monitors stop tick finish_check
Step-IsSound {s} (synced ms) h =
    stop_missing-IsSound ms (map ticker_key (start_missing ms s).timers) (start_missing ms s)
      (start_missing-IsSound ms s h)
Step-IsSound {s} stopped h = stop_missing-IsSound [] (map ticker_key s.timers) s h
Step-IsSound {s} (ticked l e c) h = change_loop-IsSound s h l.number _ (λ x. (refl, refl))
Step-IsSound {s} (began l e d c) h = begin_check-IsSound l s h
Step-IsSound {s} (finished l e c) h =
    set_running-IsSound _ (change_loop-IsSound s h l.number _ (λ x. (refl, refl))) l.monitor_id
      false

-- From a sound scheduler, every state that it reaches is sound: the tickers and the cancel
-- functions are of the same monitors, each once, and the cancel functions are exactly those of the
-- goroutines that have not been cancelled, so every monitor with a ticker has one goroutine that
-- goes on, and no other does.
pub Reach-IsSound : {s t : Scheduler} → IsSound s → Reach s t → IsSound t
Reach-IsSound h here = h
Reach-IsSound h (next r step) = Step-IsSound step (Reach-IsSound h r)

pub new_scheduler-IsSound : IsSound new_scheduler
unfolding live
new_scheduler-IsSound = record { same_keys = refl; current = refl; unique = tt; numbered = tt }
