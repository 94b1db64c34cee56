-- ===== src/Session/BruteForce/Account/Tests.antt =====
-- session/bruteforce.go: two failures of an identity, and a success during its lockout.
use security_go.Shared.{◌≡◌, refl, List, [], ◌∷◌, none, some, ok, All, ◌*◌}
use security_go.Shared.Time.{second}
use security_go.Session.Examples.{two_failures, client}
use security_go.Session.Codec.{packages, packages-Laws}
use security_go.Session.MemoryStore.{new_memory_store, memory_store}
use security_go.Session.MemoryStore.Laws.{memory_store-IsStore}
use security_go.Session.Tracker.{load_nets, hash_token}
use security_go.Session.Lockout.{locked, lock_end, lock_for}
use security_go.Session.BruteForce.Account.{
  Event, fails, clears, new_account, account_after, fail, crosses,
}
use security_go.Session.BruteForce.Account.Refinement.{Shows}
use security_go.Session.BruteForce.Account.History.{after, answers, locked-account_after}

abbrev history : List Event
history = fails (10 * second) ∷ fails (11 * second) ∷ clears ∷ []

nothing_known :
    Shows packages packages-Laws memory_store memory_store-IsStore two_failures "bob" client
      new_memory_store new_account
unfolding packages memory_store new_memory_store locked lock_end load_nets
nothing_known = record {
  failed = λ later. refl;
  strikes = λ later. refl;
  lock = λ later. refl;
  readable = λ now. ([], refl);
}

locked-account_after_example :
    All
      (λ x. x ≡ ok tt)
      (answers packages memory_store two_failures "bob" client history new_memory_store)
    × (locked packages memory_store
          (14 * second)
          "bob"
          (after packages memory_store two_failures "bob" client history new_memory_store)
        ≡ ok (some (15 * second)))
    × (memory_store.load
          (after packages memory_store two_failures "bob" client history new_memory_store)
          (14 * second)
          "fail:bob"
        ≡ ok none)
unfolding packages account_after fail crosses lock_for hash_token
locked-account_after_example =
    locked-account_after packages packages-Laws memory_store memory_store-IsStore two_failures "bob"
      client refl history new_memory_store new_account (14 * second) nothing_known
