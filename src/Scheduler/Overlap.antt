-- ===== src/Scheduler/Overlap.antt =====
-- internal/agent/scheduler.go: how many checks of one monitor run at once.
use ping_mesh.Prelude.{
  ◌≡◌, refl, sym, subst, ◌∙◌, ◌≤◌, String, true, false, List, [], ◌∷◌, map, none, some,
  Option-cases, Bool-cases, inl, inr, ◌==◌, eq_iff, eq_refl, arith,
}
use ping_mesh.Model.{Monitor}
use ping_mesh.Db.{find, has, delete, has-eq_find, find-none_of_has}
use ping_mesh.Scheduler.Table.{
  new_loop, Loop, Scheduler, ticker_key, new_scheduler, start_monitor, change_loop, stop_monitor,
  start_missing, is_active, sync_monitors, stop,
}
use ping_mesh.Scheduler.Loops.{
  find_loop, is_running, tick, begin_check, finish_check, Step, synced, stopped, ticked, began,
  finished, Reach, here, next,
}
use ping_mesh.Scheduler.Goroutines.{IsNumbered}
use ping_mesh.Scheduler.Sync.{ticker_after_sync, start_missing-timers, first_with, is_active-first}
use ping_mesh.Scheduler.Invariant.{IsSound, Reach-IsSound, new_scheduler-IsSound, has-map}
use ping_mesh.Scheduler.Busy.{
  busy, one, IsExact, busy-change_loop, busy-same, not_before, is_running-set,
  start_missing-IsExact, stop_missing-IsExact,
}

module _ (id : String) where
  first_none : (ms : List Monitor) → is_active ms id ≡ false → first_with id ms ≡ none
  first_none ms e = elim (Option-cases (first_with id ms)) [
    | inl none_first ↦ none_first
    | inr (m, f) ↦
        let yes_active : is_active ms id ≡ true = is_active-first id ms ∙ rw f refl in
        cc (e, yes_active)
  ]

  -- A monitor that is not active has lost its ticker after SyncMonitors; if it had none before, it is
  -- not stopped.
  sync-free :
      (ms : List Monitor) (s : Scheduler)
      → (has ticker_key id s.timers ≡ true → has ticker_key id (sync_monitors ms s).timers ≡ true)
      → is_active ms id ≡ false
      → has ticker_key id (start_missing ms s).timers ≡ false
  sync-free ms s keep idle =
      let gone : has ticker_key id (sync_monitors ms s).timers ≡ false =
        has-eq_find ticker_key id (sync_monitors ms s).timers
        ∙ rw ((ticker_after_sync id ms s).0, first_none ms idle) refl in
      let none_before : find ticker_key id s.timers ≡ none =
        find-none_of_has ticker_key id s.timers (not_before _ _ keep gone) in
      has-eq_find ticker_key id (start_missing ms s).timers
      ∙ rw (start_missing-timers id ms s, none_before, first_none ms idle) refl

  sync-IsExact :
      (ms : List Monitor) (s : Scheduler)
      → (has ticker_key id s.timers ≡ true → has ticker_key id (sync_monitors ms s).timers ≡ true)
      → IsExact id s
      → IsExact id (sync_monitors ms s)
  unfolding sync_monitors
  sync-IsExact ms s keep h =
      let s' = start_missing ms s in
      stop_missing-IsExact id ms (map ticker_key s'.timers) s'
        (elim (Bool-cases (is_active ms id)) [
          | inl e ↦ ground (arith, e)
          | inr e ↦ rw (← has-map ticker_key id s'.timers) (ground (arith, sync-free ms s keep e))
        ])
        (start_missing-IsExact id ms s h)

  stop-IsExact :
      (s : Scheduler)
      → (has ticker_key id s.timers ≡ true → has ticker_key id (stop s).timers ≡ true)
      → IsExact id s
      → IsExact id (stop s)
  unfolding stop
  stop-IsExact s keep h =
      let gone : has ticker_key id (stop s).timers ≡ false =
        has-eq_find ticker_key id (stop s).timers ∙ rw ((ticker_after_sync id [] s).1) refl in
      stop_missing-IsExact id [] (map ticker_key s.timers) s
        (rw (← has-map ticker_key id s.timers) (ground (arith, not_before _ _ keep gone))) h

  begin_check-IsExact :
      (l : Loop) (s : Scheduler)
      → IsNumbered s.started s.loops
      → find_loop l.number s.loops ≡ some l
      → l.checking ≡ false
      → IsExact id s
      → IsExact id (begin_check l s)
  unfolding begin_check
  begin_check-IsExact l s i e c h = elim (Bool-cases (is_running l.monitor_id s)) [
    | inl r ↦ rw r (busy-same id l.number _ s.loops (λ x. refl) ∙ h)
    | inr r ↦ rw r (
        subst
          (λ b.
            busy id (change_loop l.number (λ x. record x { due = false; checking = true }) s.loops)
            ≡ one b)
          (sym (is_running-set id l.monitor_id true s))
          (elim (Bool-cases (l.monitor_id == id)) [
            | inl own ↦
                let idle : is_running id s ≡ false =
                  subst (λ j. is_running j s ≡ false) ((eq_iff l.monitor_id id).0 own) r in
                rw own (
                  ground (
                    arith,
                    idle,
                    own,
                    c,
                    busy-change_loop id s.started l.number
                        (λ x. record x { due = false; checking = true }) s.loops l i e,
                  ))
            | inr other ↦ rw other (
                ground (
                  arith,
                  other,
                  busy-change_loop id s.started l.number
                      (λ x. record x { due = false; checking = true }) s.loops l i e,
                ))
          ]))
  ]

  finish_check-IsExact :
      (l : Loop) (s : Scheduler)
      → IsNumbered s.started s.loops
      → find_loop l.number s.loops ≡ some l
      → l.checking ≡ true
      → IsExact id s
      → IsExact id (finish_check l s)
  unfolding finish_check is_running
  finish_check-IsExact l s i e c h =
      subst
        (λ b. busy id (change_loop l.number (λ x. record x { checking = false }) s.loops) ≡ one b)
        (sym (is_running-set id l.monitor_id false s))
        (ground (
          arith,
          c,
          busy-change_loop id s.started l.number (λ x. record x { checking = false }) s.loops l i e,
        ))

  Step-IsExact :
      {s t : Scheduler}
      → Step s t
      → (has ticker_key id s.timers ≡ true → has ticker_key id t.timers ≡ true)
      → IsSound s
      → IsExact id s
      → IsExact id t
  unfolding tick is_running
  Step-IsExact {s} (synced ms) keep i h = sync-IsExact ms s keep h
  Step-IsExact {s} stopped keep i h = stop-IsExact s keep h
  Step-IsExact {s} (ticked l e c) keep i h = busy-same id l.number _ s.loops (λ x. refl) ∙ h
  Step-IsExact {s} (began l e d c) keep i h = begin_check-IsExact l s i.numbered e c h
  Step-IsExact {s} (finished l e c) keep i h = finish_check-IsExact l s i.numbered e c h

-- Steps of which none takes the monitor's ticker away.
pub data Unstopped (id : String) (s : Scheduler) : Scheduler → Type 0 where
  at_start : Unstopped id s s
  then_step :
      {t u : Scheduler}
      → Unstopped id s t
      → Step t u
      → (has ticker_key id t.timers ≡ true → has ticker_key id u.timers ≡ true)
      → Unstopped id s u

Unstopped-Reach : (id : String) {s t : Scheduler} → Unstopped id s t → Reach s t
Unstopped-Reach id at_start = here
Unstopped-Reach id (then_step r step keep) = next (Unstopped-Reach id r) step

pub Unstopped-IsExact :
    (id : String) {s t : Scheduler} → IsSound s → IsExact id s → Unstopped id s t → IsExact id t
Unstopped-IsExact id i h at_start = h
Unstopped-IsExact id i h (then_step r step keep) =
    Step-IsExact id step keep (Reach-IsSound i (Unstopped-Reach id r)) (Unstopped-IsExact id i h r)

-- In every run of the scheduler, with its goroutines interleaved step by step, in which no step
-- takes the ticker of a monitor away: the flag of the monitor is set exactly while one goroutine
-- is in a check of it, and never are two.
pub one_check :
    (id : String) {t : Scheduler}
    → Unstopped id new_scheduler t
    → (busy id t.loops ≡ one (is_running id t)) × (busy id t.loops ≤ 1)
unfolding busy is_running find
one_check id r = let e = Unstopped-IsExact id new_scheduler-IsSound refl r in (e, ground (arith, e))

-- Stopped and started again while its check runs, a monitor is checked twice at once.
module _ (m : Monitor) where
  abbrev once : Scheduler
  once = sync_monitors (m ∷ []) new_scheduler

  abbrev checking_once : Scheduler
  checking_once = begin_check (new_loop 0 m.id) once

  abbrev again : Scheduler
  again = sync_monitors (m ∷ []) (sync_monitors [] checking_once)

  abbrev checking_twice : Scheduler
  checking_twice = begin_check (new_loop 1 m.id) again

  first_loop : find_loop 0 once.loops ≡ some (new_loop 0 m.id)
  unfolding sync_monitors find_loop start_monitor stop_monitor has find delete
  first_loop = ground (arith, eq_refl m.id)

  second_loop : find_loop 1 again.loops ≡ some (new_loop 1 m.id)
  unfolding sync_monitors find_loop start_monitor stop_monitor has find delete begin_check
  second_loop = ground (arith, eq_refl m.id)

  twice_busy : busy m.id checking_twice.loops ≡ 2
  unfolding sync_monitors busy start_monitor stop_monitor has find delete begin_check
  twice_busy = ground (arith, eq_refl m.id)

  -- For every monitor, the scheduler can reach a state in which two goroutines are in a check of
  -- it: the monitor is stopped and started again while a check runs, and the flag was deleted with
  -- the stop.
  pub two_checks : (s : Scheduler) × Reach new_scheduler s × (busy m.id s.loops ≡ 2)
  two_checks = (
    checking_twice,
    next
        (next
          (next (next (next here (synced (m ∷ []))) (began (new_loop 0 m.id) first_loop refl refl))
            (synced []))
          (synced (m ∷ [])))
        (began (new_loop 1 m.id) second_loop refl refl),
    twice_busy,
  )
