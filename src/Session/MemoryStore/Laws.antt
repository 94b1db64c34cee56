-- ===== src/Session/MemoryStore/Laws.antt =====
-- session/store.go: what a client reads back, and that the reaper does not show.
use text.Mathlib.Text.{◌==◌}
use security_go.Shared.{
  ◌+◌, ◌≤◌, ◌≡◌, refl, ap, not, String, Option, none, some, ok, arith, ltb, if◌then◌else◌,
}
use security_go.Shared.Assoc.{lookup, IsMap, kept, lookup-insert, lookup-erase, lookup-retain}
use security_go.Shared.Time.{Instant, Duration}
use security_go.Session.{IsStore}
use security_go.Session.MemoryStore.{
  Entry, MemoryStore, memory_store, save, load, delete, reap_once, live_value,
}

-- A value that was saved is read back until its time to live has passed and not later; other keys
-- are read as before.
pub load-save :
    (m : MemoryStore) (now later : Instant) (k j value : String) (ttl : Duration)
    → load (save m now k value ttl).1 later j
      ≡ (if k == j then ok (if ltb (now + ttl) later then none else some value) else load m later j)
unfolding load save
load-save m now later k j value ttl =
    ground (arith, lookup-insert k j (record { value = value; expires = now + ttl }) m.entries)

-- A deleted key reads as absent, and other keys are read as before.
pub load-delete :
    (m : MemoryStore) (later : Instant) (k j : String)
    → load (delete m k).1 later j ≡ (if k == j then ok none else load m later j)
unfolding load delete
load-delete m later k j = ground (arith, lookup-erase k j m.entries)

live_value-kept :
    (now later : Instant) (o : Option Entry)
    → now ≤ later
    → live_value later (kept (λ e. not (ltb e.expires now)) o) ≡ live_value later o
unfolding live_value
live_value-kept now later none h = refl
live_value-kept now later (some e) h = ground arith

-- A tick of the reaper changes no later read.
pub load-reap_once :
    (m : MemoryStore) (now later : Instant) (k : String)
    → IsMap m.entries
    → now ≤ later
    → load (reap_once m now) later k ≡ load m later k
unfolding load reap_once
load-reap_once m now later k v h =
    rw (lookup-retain _ k m.entries v) (ap ok (live_value-kept now later (lookup k m.entries) h))

-- The in-memory store is a store that does not fail.
pub memory_store-IsStore : IsStore memory_store
unfolding memory_store
memory_store-IsStore = record {
  saves = λ m now k value ttl. refl;
  load-save = load-save;
  loads = λ m now k. (live_value now (lookup k m.entries), refl);
  deletes = λ m k. refl;
  load-delete = load-delete;
}
