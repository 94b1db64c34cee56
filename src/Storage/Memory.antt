-- ===== src/Storage/Memory.antt =====
-- storage/memory.go: counters and bans in memory, with a reaper that drops what has expired.
pub mod Reaping
mod Tests
use security_go.Shared.{
  ℕ, ◌+◌, Bool, true, false, not, String, List, [], ◌∷◌, Option, none, some, Fallible, ok, ltb,
  if◌then◌else◌,
}
use security_go.Shared.Assoc.{lookup, insert, retain}
use security_go.Shared.Time.{Instant, Duration, since}
use security_go.Storage.{Backend}

pub record Event : Type 0 where
  pub count : ℕ
  pub window_start : Instant
  pub window : Duration

-- `done` says whether the channel that stops the reaper is closed.
pub record Memory : Type 0 where
  pub events : List (String × Event)
  pub blocked : List (String × Instant)
  pub done : Bool

unfoldable pub new_memory : Memory
new_memory = record { events = []; blocked = []; done = false }

-- The window has elapsed.
abbrev pub is_over : Instant → Duration → Event → Bool
is_over now window ev = ltb window (since now ev.window_start)

abbrev pub bumped : Event → Duration → Event
bumped ev window = record ev { count = ev.count + 1; window = window }

unfoldable pub incr_event : Instant → Duration → Option Event → Event
incr_event now window none = record { count = 1; window_start = now; window = window }
incr_event now window (some ev) =
    if is_over now window ev
    then record { count = 1; window_start = now; window = window }
    else bumped ev window

unfoldable pub incr : Memory → Instant → String → Duration → Fallible ℕ × Memory
unfolding incr_event lookup insert
incr m now key window =
    let ev = incr_event now window (lookup key m.events) in
    (ok ev.count, record m { events = insert key ev m.events })

unfoldable pub live_count : Instant → Option Event → ℕ
live_count now none = 0
live_count now (some ev) =
    if ltb 0 ev.window then if is_over now ev.window ev then 0 else ev.count else ev.count

unfoldable pub get : Memory → Instant → String → Fallible ℕ
unfolding live_count lookup
get m now key = ok (live_count now (lookup key m.events))

unfoldable pub block : Memory → Instant → String → Duration → Fallible (Unit {0}) × Memory
unfolding insert
block m now key duration = (ok tt, record m { blocked = insert key (now + duration) m.blocked })

unfoldable pub is_before : Instant → Option Instant → Bool
is_before now none = false
is_before now (some until) = ltb now until

unfoldable pub is_blocked : Memory → Instant → String → Fallible Bool
unfolding is_before lookup
is_blocked m now key = ok (is_before now (lookup key m.blocked))

-- Closing a second time does nothing.
unfoldable pub close : Memory → Instant → Fallible (Unit {0}) × Memory
close m now = (ok tt, record m { done = true })

unfoldable pub reap_once : Memory → Instant → Memory
unfolding retain
reap_once m now = record m {
  events = retain (λ ev. not (is_over now ev.window ev)) m.events;
  blocked = retain (λ until. not (ltb until now)) m.blocked;
}

unfoldable pub memory_backend : Backend Memory
unfolding incr get block is_blocked close
memory_backend = record {
  incr = incr;
  get = get;
  block = block;
  is_blocked = is_blocked;
  close = close;
}
