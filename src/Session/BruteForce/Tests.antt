-- ===== src/Session/BruteForce/Tests.antt =====
-- session/bruteforce.go: examples over the in-memory store.
use security_go.Shared.{
  ◌+◌, ◌≤◌, ◌%◌, ◌*◌, ◌≡◌, ◌≢◌, ◌↔◌, ◌⊎◌, eq_iff, arith, refl, true, false, String, [], ◌∷◌, none,
  some, ok, In, min, length,
}
use security_go.Shared.Time.{second}
use security_go.Session.Examples.{two_failures, client}
use security_go.Session.Codec.{packages, packages-Laws}
use security_go.Session.MemoryStore.{MemoryStore, new_memory_store, memory_store}
use security_go.Session.MemoryStore.Laws.{memory_store-IsStore}
use security_go.Session.Tracker.{load_nets, hash_token, client_ip}
use security_go.Session.Lockout.{locked, lock_for}
use security_go.Session.Lockout.Backoff.{lock_for-doubles}
use security_go.Session.BruteForce.{
  counter_of, contains, add_id, check_login, guard_login, too_many, header,
}
use security_go.Session.BruteForce.Sequence.{fail_at, Counting, fail_at-locks}
use security_go.Session.BruteForce.Stuffing.{Distinct, add_id_lem}
use security_go.Session.BruteForce.Guarding.{guard_login-fail_at}
use security_go.Session.BruteForce.Refusing.{Locks, Stuffs, check_login_iff}

abbrev bob_locked : MemoryStore
bob_locked = record {
  entries = ("lock:bob", record { value = "IIIIIIIIIIIIIII"; expires = 15 * second }) ∷ [];
  done = false;
}

nothing_counted :
    Counting packages packages-Laws memory_store memory_store-IsStore two_failures "bob" client 0
      (10 * second)
      new_memory_store
unfolding packages memory_store new_memory_store counter_of load_nets
nothing_counted = record {
  counted = λ now h. (none, refl, refl);
  no_lock = λ now. refl;
  no_strike = λ now. refl;
  readable = λ now. ([], refl);
}

fail_at-locks_example :
    locked packages memory_store (14 * second) "bob" (
      fail_at packages packages-Laws memory_store memory_store-IsStore two_failures "bob" client
        (10 * second ∷ 11 * second ∷ [])
        new_memory_store)
    ≡ ok (some (15 * second))
unfolding lock_for
fail_at-locks_example =
    fail_at-locks packages packages-Laws memory_store memory_store-IsStore two_failures "bob" client
      0 (10 * second) (10 * second) (11 * second ∷ []) new_memory_store refl nothing_counted
      (omega arith) (omega arith, tt) refl (14 * second)

-- In the 12th second there are three seconds left.
guard_login-fail_at_example :
    guard_login packages memory_store two_failures
      (12 * second)
      (λ s. (header 200 ∷ [], s))
      (some (λ r. "bob"))
      client
      (fail_at packages packages-Laws memory_store memory_store-IsStore two_failures "bob" client
        (10 * second ∷ 11 * second ∷ [])
        new_memory_store)
    ≡ (
      too_many (some 3),
      fail_at packages packages-Laws memory_store memory_store-IsStore two_failures "bob" client
          (10 * second ∷ 11 * second ∷ [])
          new_memory_store,
    )
unfolding lock_for
guard_login-fail_at_example =
    guard_login-fail_at packages packages-Laws memory_store memory_store-IsStore two_failures "bob"
      client (10 * second) (10 * second) (11 * second ∷ []) new_memory_store (12 * second)
      (λ s. (header 200 ∷ [], s)) refl nothing_counted (omega arith) (omega arith, tt) refl
      (omega arith)

check_login_iff_example :
    ((check_login packages memory_store two_failures (12 * second) "bob" client bob_locked).detected
      ≡ true)
    ↔ (((◌≢◌ {A = String} "bob" "")
          × Locks packages memory_store two_failures (12 * second) (some "IIIIIIIIIIIIIII"))
        ⊎ ((client_ip packages two_failures client ≢ "")
            × Stuffs packages memory_store two_failures (12 * second) none))
unfolding packages memory_store hash_token client_ip
check_login_iff_example =
    check_login_iff packages memory_store two_failures (12 * second) client "bob" bob_locked
      (some "IIIIIIIIIIIIIII") none refl refl

false_ne_true : ¬ false ≡ true
false_ne_true e = cc

b_ne_a : ¬ (◌≡◌ {A = String} "b" "a")
b_ne_a e = false_ne_true ((eq_iff "b" "a").1 e)

-- The oldest of two identities makes room for a third.
add_id_lem_example :
    In "c" (add_id packages memory_store two_failures 0 "c" ("a" ∷ "b" ∷ []))
    × Distinct (add_id packages memory_store two_failures 0 "c" ("a" ∷ "b" ∷ []))
    × (length (add_id packages memory_store two_failures 0 "c" ("a" ∷ "b" ∷ [])) ≡ 2)
unfolding contains
add_id_lem_example =
    add_id_lem packages memory_store two_failures 0 "c" ("a" ∷ "b" ∷ []) refl
      ((b_ne_a, tt), (tt, tt)) (omega arith) (omega arith)

lock_for-doubles_example :
    (lock_for two_failures 3 ≤ 60 * second)
    × (min (60 * second) (4 * second * 4) ≤ lock_for two_failures 3)
    × (lock_for two_failures 3 ≤ min (60 * second) (4 * second * 4) + 60 * second % 2)
lock_for-doubles_example = lock_for-doubles two_failures 3
