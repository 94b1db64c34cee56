-- ===== src/Session/MemoryStore.antt =====
-- session/store.go: the in-memory session store.
pub mod Laws
mod Tests
use security_go.Shared.{
  ◌+◌, Bool, true, false, not, String, List, [], Option, none, some, Fallible, ok, ltb,
  if◌then◌else◌,
}
use security_go.Shared.Assoc.{lookup, insert, erase, retain}
use security_go.Shared.Time.{Instant, Duration}
use security_go.Session.{Store}

pub record Entry : Type 0 where
  pub value : String
  pub expires : Instant

-- `done` says whether the channel that stops the reaper is closed.
pub record MemoryStore : Type 0 where
  pub entries : List (String × Entry)
  pub done : Bool

unfoldable pub new_memory_store : MemoryStore
new_memory_store = record { entries = []; done = false }

unfoldable pub save :
    MemoryStore → Instant → String → String → Duration → Fallible (Unit {0}) × MemoryStore
unfolding insert
save m now key value ttl = (
  ok tt,
  record m { entries = insert key (record { value = value; expires = now + ttl }) m.entries },
)

unfoldable pub live_value : Instant → Option Entry → Option String
live_value now none = none
live_value now (some e) = if ltb e.expires now then none else some e.value

unfoldable pub load : MemoryStore → Instant → String → Fallible (Option String)
unfolding live_value lookup
load m now key = ok (live_value now (lookup key m.entries))

unfoldable pub delete : MemoryStore → String → Fallible (Unit {0}) × MemoryStore
unfolding erase
delete m key = (ok tt, record m { entries = erase key m.entries })

-- Closing a second time does nothing.
unfoldable pub close : MemoryStore → Fallible (Unit {0}) × MemoryStore
close m = (ok tt, record m { done = true })

-- What the reaper does at a tick.
unfoldable pub reap_once : MemoryStore → Instant → MemoryStore
unfolding retain
reap_once m now = record m { entries = retain (λ e. not (ltb e.expires now)) m.entries }

unfoldable pub memory_store : Store MemoryStore
unfolding save load delete
memory_store = record { save = save; load = load; delete = delete }
