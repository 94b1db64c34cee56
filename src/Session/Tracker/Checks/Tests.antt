-- ===== src/Session/Tracker/Checks/Tests.antt =====
-- session/tracker.go: examples over the in-memory store.
use security_go.Shared.{◌*◌, ◌≡◌, ◌↔◌, refl, arith, true, false, [], ◌∷◌, Option, some, ok}
use security_go.Shared.Time.{second}
use security_go.Session.{Request}
use security_go.Session.Examples.{by_default, from}
use security_go.Session.Codec.{packages, packages-Laws}
use security_go.Session.MemoryStore.{MemoryStore, new_memory_store, memory_store}
use security_go.Session.MemoryStore.Laws.{memory_store-IsStore}
use security_go.Session.Tracker.{Tracker, hash_token}
use security_go.Session.Lockout.{locked, lock_end}
use security_go.Session.Tracker.Checks.{issue, token_of, check}
use security_go.Session.Tracker.Checks.Binding.{IsSame, check-issue_iff}

abbrev tokens : Tracker
tokens = record by_default { token_source = some (λ r. "token"); fail_closed = true }

abbrev laptop : Option Request
laptop = from "laptop"

abbrev phone : Option Request
phone = from "phone"

-- A session of a laptop, presented by a phone ten seconds later.
check-issue_iff_example :
    (s' : MemoryStore) × (issue packages memory_store tokens
        (10 * second)
        "token"
        laptop
        new_memory_store
      ≡ (ok tt, s'))
    × (((check packages memory_store tokens (20 * second) phone s').0.detected ≡ false)
        ↔ IsSame packages tokens laptop phone)
unfolding packages memory_store new_memory_store locked lock_end hash_token token_of
check-issue_iff_example =
    check-issue_iff packages packages-Laws memory_store memory_store-IsStore tokens new_memory_store
      (10 * second) (20 * second) "token" laptop phone refl refl (omega arith) refl refl

abbrev known_from_home : MemoryStore
known_from_home = record {
  entries = ("nets:bob", record { value = "xhxoxmxe.."; expires = 99 * second }) ∷ [];
  done = false;
}
