-- ===== src/Storage/IpBlacklist/Racing/Tests.antt =====
-- httpval/ip_blacklist.go: three attacks at the same time, and a ban from the second of an address on.
use security_go.Shared.{◌≤◌, ◌≡◌, ◌⊎◌, refl, arith, true, false, String, List, [], ◌∷◌, ok, min}
use security_go.Shared.Assoc.{lookup}
use security_go.Storage.Memory.{Memory, new_memory, memory_backend, incr_event}
use security_go.Storage.IpBlacklist.{IpBlacklist, detect}
use security_go.Storage.IpBlacklist.Racing.{
  Attack, arrives, reaches, returns, after_incr, after_block, next_call, first, other, Turns, stay,
  more, arriving, Within,
}
use security_go.Storage.IpBlacklist.Racing.Counts.{count_of, is_spared}
use security_go.Storage.IpBlacklist.Racing.Exact.{detect_racing}

abbrev twice : IpBlacklist
twice = record { threshold = 2; window = 10; ban_duration = 100 }

abbrev after_three : Memory
after_three = record {
  events =
      ("a", record { count = 2; window_start = 1; window = 10 })
      ∷ ("b", record { count = 1; window_start = 3; window = 10 })
      ∷ [];
  blocked = ("a", 104) ∷ [];
  done = false;
}

abbrev returned : List (String × Attack)
returned = ("a", returns (ok false)) ∷ ("a", returns (ok true)) ∷ ("b", returns (ok false)) ∷ []

-- The first attack from "a" is counted, then the second, then the one from "b"; then the ban is set.
three :
    Turns memory_backend twice
      (Within twice 1)
      (arriving ("a" ∷ "a" ∷ "b" ∷ []))
      new_memory
      returned
      after_three
unfolding memory_backend new_memory arriving next_call after_incr after_block incr_event
three =
    more 4 (omega arith, omega arith)
      (more 3 (omega arith, omega arith)
        (more 2 (omega arith, omega arith)
          (more 1 (omega arith, omega arith) stay (first "a" arrives _ _))
          (other ("a", returns (ok false)) (first "a" arrives _ _)))
        (other ("a", returns (ok false)) (other ("a", reaches) (first "b" arrives _ _))))
      (other ("a", returns (ok false)) (first "a" reaches _ _))

detect_racing_example :
    (count_of "a" is_spared returned ≡ min 2 1)
    × ((2 ≤ 1) ⊎ ((101 ≤ 50) ⊎ ((detect memory_backend twice after_three 50 "a").detected ≡ true)))
unfolding count_of arriving new_memory lookup
detect_racing_example =
    detect_racing "a" twice 1 1 refl ("a" ∷ "a" ∷ "b" ∷ []) new_memory returned after_three 50 refl
      three ((ok false, refl), ((ok true, refl), ((ok false, refl), tt)))
