-- ===== src/Session/Release/Tests.antt =====
-- session/: three failures of an identity, and a login after all the tracker's times.
use security_go.Shared.{◌*◌, ◌≡◌, refl, List, [], ◌∷◌, arith}
use security_go.Shared.Int.{pos}
use security_go.Shared.Time.{Instant, second}
use security_go.Security.{clean}
use security_go.Session.Examples.{two_failures, client}
use security_go.Session.Codec.{packages}
use security_go.Session.MemoryStore.{new_memory_store, memory_store}
use security_go.Session.MemoryStore.Laws.{memory_store-IsStore}
use security_go.Session.Tracker.{Tracker, tracker_name}
use security_go.Session.BruteForce.{check_login}
use security_go.Session.Release.{Call, records_failure, observes, after_calls}
use security_go.Session.Release.Unlocking.{check_login-after_calls}

-- Every time is at most a minute.
abbrev short : Tracker
short = record two_failures {
  ttl = pos (60 * second);
  known_net_ttl = pos (60 * second);
  backoff_window = pos (60 * second);
}

abbrev calls : List (Instant × Call)
calls =
    (second, records_failure "bob" client)
    ∷ (2 * second, records_failure "bob" client)
    ∷ (3 * second, observes "bob" client)
    ∷ []

check_login-after_calls_example :
    check_login packages memory_store short
      (64 * second)
      "bob"
      client
      (after_calls packages memory_store short calls new_memory_store)
    ≡ clean tracker_name
unfolding memory_store new_memory_store
check_login-after_calls_example =
    check_login-after_calls packages memory_store memory_store-IsStore short (63 * second)
      (64 * second) calls new_memory_store "bob" client (λ later over key. refl)
      (omega arith, (omega arith, (omega arith, tt))) (omega arith)
