-- ===== src/Scheduler/Loops.antt =====
-- internal/agent/scheduler.go: runLoop and the guard of executeCheck, which run beside one another.
use ping_mesh.Prelude.{
  ◌≡◌, ℕ, String, Bool, true, false, List, [], ◌∷◌, Option, none, some, nat_eq, if◌then◌else◌,
}
use ping_mesh.Model.{Monitor}
use ping_mesh.Db.{find}
use ping_mesh.Scheduler.Table.{
  Flag, Loop, Scheduler, flag_key, put, change_loop, sync_monitors, stop,
}

abbrev pub is_on : Option Flag → Bool
is_on none = false
is_on (some f) = f.on

-- s.running[id]
unfoldable pub is_running : String → Scheduler → Bool
is_running id s = is_on (find flag_key id s.running)

-- s.running[id] = b
unfoldable pub set_running : String → Bool → Scheduler → Scheduler
set_running id b s = record s {
  running = put flag_key (record { monitor_id = id; on = b }) s.running;
}

-- The ticker's channel holds one tick.
unfoldable pub tick : Loop → Scheduler → Scheduler
unfolding change_loop
tick l s = record s { loops = change_loop l.number (λ x. record x { due = true }) s.loops }

-- The guard of executeCheck: it returns if the flag is set, and sets it otherwise.
unfoldable pub begin_check : Loop → Scheduler → Scheduler
unfolding set_running change_loop is_running
begin_check l s =
    if is_running l.monitor_id s
    then record s { loops = change_loop l.number (λ x. record x { due = false }) s.loops }
    else set_running l.monitor_id true (record s {
      loops = change_loop l.number (λ x. record x { due = false; checking = true }) s.loops;
    })

-- The deferred function.
unfoldable pub finish_check : Loop → Scheduler → Scheduler
unfolding set_running change_loop
finish_check l s =
    set_running l.monitor_id false
      (record s { loops = change_loop l.number (λ x. record x { checking = false }) s.loops })

unfoldable pub find_loop : ℕ → List Loop → Option Loop
find_loop k [] = none
find_loop k (l ∷ ls) = if nat_eq l.number k then some l else find_loop k ls

-- A ticker that has been stopped ticks no more; a tick that it left may still be taken up.
pub data Step (s : Scheduler) : Scheduler → Type 0 where
  synced : (ms : List Monitor) → Step s (sync_monitors ms s)
  stopped : Step s (stop s)
  ticked :
      (l : Loop) → find_loop l.number s.loops ≡ some l → l.cancelled ≡ false → Step s (tick l s)
  began :
      (l : Loop)
      → find_loop l.number s.loops ≡ some l
      → l.due ≡ true
      → l.checking ≡ false
      → Step s (begin_check l s)
  finished :
      (l : Loop)
      → find_loop l.number s.loops ≡ some l
      → l.checking ≡ true
      → Step s (finish_check l s)

pub data Reach (s : Scheduler) : Scheduler → Type 0 where
  here : Reach s s
  next : {t u : Scheduler} → Reach s t → Step t u → Reach s u
