-- ===== src/Scheduler/Table.antt =====
-- internal/agent/scheduler.go: the tickers, the cancel functions and the goroutines of the monitors.
-- A Go map is a list of entries by key. A cancel function is the number of the loop that it ends.
use ping_mesh.Prelude.{
  ℕ, suc, ◌-◌, ◌*◌, ◌%◌, ℤ, pos, negsuc, ltb_ℤ, of_word, two_64, String, Bool, true, false, List,
  [], ◌∷◌, map, Option, none, some, any, length, ◌==◌, if◌then◌else◌, nat_eq,
}
use ping_mesh.Model.{Monitor}
use ping_mesh.Db.{find, has, delete}

pub record Ticker : Type 0 where
  pub monitor_id : String
  pub interval_ns : ℤ

pub record Cancel : Type 0 where
  pub monitor_id : String
  pub loop : ℕ

pub record Flag : Type 0 where
  pub monitor_id : String
  pub on : Bool

-- A goroutine in runLoop. `due` is a tick that it has not taken up, at first the check that runs
-- immediately; `checking` holds inside executeCheck, after its guard.
pub record Loop : Type 0 where
  pub number : ℕ
  pub monitor_id : String
  pub cancelled : Bool
  pub due : Bool
  pub checking : Bool

pub record Scheduler : Type 0 where
  pub timers : List Ticker
  pub cancels : List Cancel
  pub running : List Flag
  pub loops : List Loop  -- the newest first
  pub started : ℕ

abbrev pub ticker_key : Ticker → String
ticker_key t = t.monitor_id

abbrev pub cancel_key : Cancel → String
cancel_key c = c.monitor_id

abbrev pub flag_key : Flag → String
flag_key f = f.monitor_id

-- m[k] = v
abbrev pub put : {A : Type 0} → (A → String) → A → List A → List A
put key a entries = a ∷ delete key (key a) entries

abbrev pub new_scheduler : Scheduler
new_scheduler = record { timers = []; cancels = []; running = []; loops = []; started = 0 }

-- time.Duration(ms) * time.Millisecond, on int64
unfoldable pub milliseconds : ℤ → ℤ
milliseconds (pos n) = of_word (n * 1000000 % two_64)
milliseconds (negsuc n) = of_word ((two_64 - suc n * 1000000 % two_64) % two_64)

abbrev pub second_ns : ℤ
second_ns = pos 1000000000

unfoldable pub interval_of : Monitor → ℤ
unfolding milliseconds
interval_of m =
    let interval = milliseconds m.interval_ms in
    if ltb_ℤ interval second_ns then second_ns else interval

abbrev pub new_loop : ℕ → String → Loop
new_loop number id = record {
  number = number;
  monitor_id = id;
  cancelled = false;
  due = true;
  checking = false;
}

abbrev pub ticker_of : Monitor → Ticker
ticker_of m = record { monitor_id = m.id; interval_ns = interval_of m }

unfoldable pub start_monitor : Monitor → Scheduler → Scheduler
unfolding interval_of
start_monitor m s = record s {
  timers = put ticker_key (ticker_of m) s.timers;
  cancels = put cancel_key (record { monitor_id = m.id; loop = s.started }) s.cancels;
  loops = new_loop s.started m.id ∷ s.loops;
  started = suc s.started;
}

-- The loop with a number, changed.
unfoldable pub change_loop : ℕ → (Loop → Loop) → List Loop → List Loop
change_loop k f [] = []
change_loop k f (l ∷ ls) = (if nat_eq l.number k then f l else l) ∷ change_loop k f ls

-- cancel()
unfoldable pub cancel_loop : Option Cancel → List Loop → List Loop
unfolding change_loop
cancel_loop none ls = ls
cancel_loop (some c) ls = change_loop c.loop (λ l. record l { cancelled = true }) ls

unfoldable pub stop_monitor : String → Scheduler → Scheduler
unfolding cancel_loop
stop_monitor id s = record s {
  timers = delete ticker_key id s.timers;
  cancels = delete cancel_key id s.cancels;
  running = delete flag_key id s.running;
  loops = cancel_loop (find cancel_key id s.cancels) s.loops;
}

unfoldable pub start_missing : List Monitor → Scheduler → Scheduler
start_missing [] s = s
start_missing (m ∷ ms) s =
    start_missing ms (if has ticker_key m.id s.timers then s else start_monitor m s)

abbrev pub is_active : List Monitor → String → Bool
is_active ms id = any (λ (m : Monitor). m.id == id) ms

unfoldable pub stop_missing : List Monitor → List String → Scheduler → Scheduler
stop_missing ms [] s = s
stop_missing ms (id ∷ ids) s =
    stop_missing ms ids (if is_active ms id then s else stop_monitor id s)

unfoldable pub sync_monitors : List Monitor → Scheduler → Scheduler
unfolding start_missing stop_missing
sync_monitors ms s = let s' = start_missing ms s in stop_missing ms (map ticker_key s'.timers) s'

-- Stop
unfoldable pub stop : Scheduler → Scheduler
unfolding stop_missing
stop s = stop_missing [] (map ticker_key s.timers) s

unfoldable pub active_count : Scheduler → ℕ
active_count s = length s.timers
