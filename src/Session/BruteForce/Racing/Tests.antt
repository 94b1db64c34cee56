-- ===== src/Session/BruteForce/Racing/Tests.antt =====
-- session/bruteforce.go: ten failures at the same time, with the settings by default.
use security_go.Shared.{◌≡◌, refl, [], none, some, ok, ◌*◌}
use security_go.Shared.Time.{second}
use security_go.Session.Examples.{by_default, client}
use security_go.Session.Codec.{packages, packages-Laws}
use security_go.Session.MemoryStore.{MemoryStore, new_memory_store, memory_store}
use security_go.Session.MemoryStore.Laws.{memory_store-IsStore}
use security_go.Session.Tracker.{load_nets, hash_token}
use security_go.Session.Lockout.{locked, lock_end}
use security_go.Session.BruteForce.{counter_of}
use security_go.Session.BruteForce.Racing.{ends, copies, Turns, record_failure_calls}
use security_go.Session.BruteForce.Racing.Lost.{record_failure_calls-lost}

record_failure_calls-lost_example :
    (s' : MemoryStore) × Turns memory_store
      (10 * second)
      (copies 10 (record_failure_calls packages memory_store by_default (10 * second) "bob" client))
      new_memory_store
      (copies 10 (ends (ok tt)))
      s'
    × (memory_store.load s' (10 * second) "fail:bob" ≡ ok (some "I"))
    × (locked packages memory_store (10 * second) "bob" s' ≡ ok none)
unfolding packages memory_store new_memory_store locked load_nets counter_of lock_end hash_token
record_failure_calls-lost_example =
    record_failure_calls-lost packages packages-Laws memory_store memory_store-IsStore by_default
      (10 * second) "bob" client 9 new_memory_store none refl refl refl (λ now. ([], refl)) refl
