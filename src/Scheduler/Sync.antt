-- ===== src/Scheduler/Sync.antt =====
-- internal/agent/scheduler.go: which monitors have a ticker after SyncMonitors and Stop.
use ping_mesh.Prelude.{
  ℕ, ℤ, pos, negsuc, pos_part, ltb, leb, ◌≤◌, ◌<◌, ◌*◌, ltb_ℤ, ◌≤ℤ◌, ◌<ℤ◌, ◌⊎◌, ◌≡◌, refl, sym, ap,
  subst, ◌∙◌, String, Bool, true, false, not, ◌&&◌, ◌||◌, List, [], ◌∷◌, map, any, Option, none,
  some, Bool-cases, inl, inr, ◌==◌, eq_iff, eq_refl, if◌then◌else◌, arith,
}
use mathlib.Core.Option
use ping_mesh.Model.{Monitor}
use ping_mesh.Db.{find, has, find-delete, has-eq_find, find-none_of_has}
use ping_mesh.Scheduler.Table.{
  Ticker, Scheduler, ticker_key, ticker_of, start_monitor, start_missing, stop_monitor,
  stop_missing, is_active, sync_monitors, stop, milliseconds, interval_of, second_ns,
}

-- The first monitor with an id.
abbrev pub first_with : String → List Monitor → Option Monitor
first_with id [] = none
first_with id (m ∷ ms) = if m.id == id then some m else first_with id ms

abbrev pub or_else : {A : Type 0} → Option A → Option A → Option A
or_else none other = other
or_else (some a) other = some a

start_monitor-timers :
    (id : String) (m : Monitor) (s : Scheduler)
    → find ticker_key id (start_monitor m s).timers
      ≡ (if m.id == id then some (ticker_of m) else find ticker_key id s.timers)
unfolding start_monitor find
start_monitor-timers id m s = ground (arith, find-delete ticker_key m.id id s.timers)

stop_monitor-timers :
    (id i : String) (s : Scheduler)
    → find ticker_key id (stop_monitor i s).timers
      ≡ (if i == id then none else find ticker_key id s.timers)
unfolding stop_monitor
stop_monitor-timers id i s = find-delete ticker_key i id s.timers

-- A monitor with a ticker is passed over, and one without is started.
start_step :
    (id : String) (m : Monitor) (s : Scheduler) (later : Option Ticker)
    → or_else
        (find ticker_key id (if has ticker_key m.id s.timers then s else start_monitor m s).timers)
        later
      ≡ or_else (find ticker_key id s.timers) (if m.id == id then some (ticker_of m) else later)
start_step id m s later = elim (Bool-cases (m.id == id)) [
  | inl e ↦
      subst
        (λ i.
          or_else
            (find ticker_key i
              (if has ticker_key m.id s.timers then s else start_monitor m s).timers)
            later
          ≡ or_else (find ticker_key i s.timers) (if m.id == i then some (ticker_of m) else later))
        ((eq_iff m.id id).0 e)
        (ground (
          arith,
          eq_refl m.id,
          start_monitor-timers m.id m s,
          has-eq_find ticker_key m.id s.timers,
        ))
  | inr e ↦ ground (arith, start_monitor-timers id m s)
]

map_if :
    (b : Bool) (m : Monitor) (o : Option Monitor)
    → Option.map ticker_of (if b then some m else o)
      ≡ (if b then some (ticker_of m) else Option.map ticker_of o)
map_if true m o = refl
map_if false m o = refl

pub start_missing-timers :
    (id : String) (ms : List Monitor) (s : Scheduler)
    → find ticker_key id (start_missing ms s).timers
      ≡ or_else (find ticker_key id s.timers) (Option.map ticker_of (first_with id ms))
unfolding start_missing
start_missing-timers id [] s = ground arith
start_missing-timers id (m ∷ ms) s =
    start_missing-timers id ms (if has ticker_key m.id s.timers then s else start_monitor m s)
    ∙ start_step id m s (Option.map ticker_of (first_with id ms))
    ∙ ap (or_else (find ticker_key id s.timers)) (sym (map_if (m.id == id) m (first_with id ms)))

-- A ticker whose monitor is not active is taken out.
stop_step :
    (id i : String) (ms : List Monitor) (s : Scheduler)
    → find ticker_key id (if is_active ms i then s else stop_monitor i s).timers
      ≡ (if (i == id) && not (is_active ms i) then none else find ticker_key id s.timers)
stop_step id i ms s = ground (arith, stop_monitor-timers id i s)

join_step :
    (id i : String) (ms : List Monitor) (later : Bool) (o : Option Ticker)
    → (if later && not (is_active ms id)
        then none
        else if (i == id) && not (is_active ms i)
        then none
        else o)
      ≡ (if ((i == id) || later) && not (is_active ms id) then none else o)
join_step id i ms later o = elim (Bool-cases (i == id)) [
  | inl e ↦
      subst
        (λ j.
          (if later && not (is_active ms j)
            then none
            else if (i == j) && not (is_active ms i)
            then none
            else o)
          ≡ (if ((i == j) || later) && not (is_active ms j) then none else o))
        ((eq_iff i id).0 e) (ground (arith, eq_refl i))
  | inr e ↦ rw e (ground arith)
]

stop_missing-timers :
    (id : String) (ms : List Monitor) (ids : List String) (s : Scheduler)
    → find ticker_key id (stop_missing ms ids s).timers ≡ (
        if any (λ i. i == id) ids && not (is_active ms id)
        then none
        else find ticker_key id s.timers)
unfolding stop_missing
stop_missing-timers id ms [] s = refl
stop_missing-timers id ms (i ∷ ids) s =
    let later : Bool = any (λ i. i == id) ids in
    stop_missing-timers id ms ids (if is_active ms i then s else stop_monitor i s)
    ∙ ap (λ (o : Option Ticker). if later && not (is_active ms id) then none else o)
        (stop_step id i ms s)
    ∙ join_step id i ms later (find ticker_key id s.timers)

any-keys :
    (id : String) (ts : List Ticker) → any (λ i. i == id) (map ticker_key ts) ≡ has ticker_key id ts
unfolding has
any-keys id [] = refl
any-keys id (t ∷ ts) = ap (λ b. (t.monitor_id == id) || b) (any-keys id ts)

-- Taking out every ticker that is there, but those of active monitors.
stop_keys :
    (id : String) (ms : List Monitor) (s : Scheduler)
    → find ticker_key id (stop_missing ms (map ticker_key s.timers) s).timers
      ≡ (if is_active ms id then find ticker_key id s.timers else none)
stop_keys id ms s =
    stop_missing-timers id ms (map ticker_key s.timers) s
    ∙ ground (arith, any-keys id s.timers, find-none_of_has ticker_key id s.timers)

pub is_active-first :
    (id : String) (ms : List Monitor)
    → is_active ms id ≡ elim (first_with id ms) [ none ↦ false | some m ↦ true ]
is_active-first id [] = refl
is_active-first id (m ∷ ms) = ground (arith, is_active-first id ms)

-- The ticker that a monitor should have: the one it has, or a new one.
abbrev pub wanted_ticker : Option Ticker → Option Monitor → Option Ticker
wanted_ticker old none = none
wanted_ticker old (some m) = or_else old (some (ticker_of m))

wanted_lem :
    (old : Option Ticker) (first : Option Monitor) (active : Bool)
    → active ≡ elim first [ none ↦ false | some m ↦ true ]
    → (if active then or_else old (Option.map ticker_of first) else none) ≡ wanted_ticker old first
wanted_lem old none active e = rw e
wanted_lem old (some m) active e = rw e

pub ticker_after_sync :
    (id : String) (ms : List Monitor) (s : Scheduler)
    → (find ticker_key id (sync_monitors ms s).timers
        ≡ wanted_ticker (find ticker_key id s.timers) (first_with id ms))
      × (find ticker_key id (stop s).timers ≡ none)
unfolding sync_monitors stop
ticker_after_sync id ms s = (
  stop_keys id ms (start_missing ms s)
      ∙ ap (λ (o : Option Ticker). if is_active ms id then o else none)
          (start_missing-timers id ms s)
      ∙ wanted_lem (find ticker_key id s.timers) (first_with id ms) (is_active ms id)
          (is_active-first id ms),
  stop_keys id [] s,
)

-- The interval of a monitor in nanoseconds, which is not under a second; beyond 9223372036854 ms either
-- way it does not fit into 64 bits, and wraps around.
abbrev pub IsInterval : ℤ → ℤ → Type 0
IsInterval interval_ms interval =
    (pos 1000000000 ≤ℤ interval)
    × (((interval ≡ pos 1000000000) × (interval_ms <ℤ pos 1000))
        ⊎ ((interval ≡ pos (pos_part interval_ms * 1000000)) × (pos 1000 ≤ℤ interval_ms))
        ⊎ (pos 9223372036854 <ℤ interval_ms)
        ⊎ (interval_ms <ℤ negsuc 9223372036853))

-- The ticker of before, or a new one; none for a monitor that is not in the list.
abbrev pub IsWanted : Option Ticker → Option Monitor → Option Ticker → Type 0
IsWanted old none new = new ≡ none
IsWanted (some t) (some m) new = new ≡ some t
IsWanted none (some m) new =
    (t : Ticker) × (new ≡ some t) × (t.monitor_id ≡ m.id) × IsInterval m.interval_ms t.interval_ns

not_under : (x : ℤ) → pos 1000000000 ≤ℤ (if ltb_ℤ x second_ns then second_ns else x)
not_under x = ground arith

fits : (n : ℕ) → n ≤ 9223372036854 → milliseconds (pos n) ≡ pos (n * 1000000)
unfolding milliseconds
fits n h = ground arith

fits_below : (n : ℕ) → n < 9223372036854 → milliseconds (negsuc n) <ℤ pos 0
unfolding milliseconds
fits_below n h = ground arith

raised-IsInterval :
    (ms : ℤ)
    → IsInterval ms (if ltb_ℤ (milliseconds ms) second_ns then second_ns else milliseconds ms)
raised-IsInterval (pos n) = (
  not_under (milliseconds (pos n)),
  elim (Bool-cases (leb n 9223372036854)) [
    | inl e ↦
        let same = fits n (ground arith) in
        elim (Bool-cases (ltb n 1000)) [
          | inl t ↦ inl (ground (arith, same))
          | inr t ↦ inr (inl (ground (arith, same)))
        ]
    | inr e ↦ inr (inr (inl (ground arith)))
  ],
)
raised-IsInterval (negsuc n) = (
  not_under (milliseconds (negsuc n)),
  elim (Bool-cases (ltb n 9223372036854)) [
    | inl e ↦ let low = fits_below n (ground arith) in inl (ground (arith, low))
    | inr e ↦ inr (inr (inr (ground arith)))
  ],
)

interval_of-IsInterval : (m : Monitor) → IsInterval m.interval_ms (interval_of m)
unfolding interval_of
interval_of-IsInterval m = raised-IsInterval m.interval_ms

wanted_ticker-IsWanted :
    (old : Option Ticker) (first : Option Monitor) → IsWanted old first (wanted_ticker old first)
wanted_ticker-IsWanted none none = refl
wanted_ticker-IsWanted (some t) none = refl
wanted_ticker-IsWanted (some t) (some m) = refl
wanted_ticker-IsWanted none (some m) = (ticker_of m, refl, refl, interval_of-IsInterval m)

-- After SyncMonitors a monitor has a ticker exactly if it is in the list: the one that it had,
-- with its old interval, or a new one with the interval of the first monitor in the list with that
-- id, which is one second where that is under 1000 ms, and else its milliseconds in nanoseconds;
-- an interval that does not fit into 64 bits wraps around, but is not under a second either. After
-- Stop no monitor has a ticker.
pub sync_monitors-timers :
    (id : String) (ms : List Monitor) (s : Scheduler)
    → IsWanted
        (find ticker_key id s.timers)
        (first_with id ms)
        (find ticker_key id (sync_monitors ms s).timers)
      × (find ticker_key id (stop s).timers ≡ none)
sync_monitors-timers id ms s =
    let after = ticker_after_sync id ms s in
    (
      subst (IsWanted (find ticker_key id s.timers) (first_with id ms)) (sym after.0)
          (wanted_ticker-IsWanted (find ticker_key id s.timers) (first_with id ms)),
      after.1,
    )
