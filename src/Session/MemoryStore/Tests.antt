-- ===== src/Session/MemoryStore/Tests.antt =====
-- session/store.go: examples.
use security_go.Shared.{◌≡◌, arith, false, [], ◌∷◌}
use security_go.Session.MemoryStore.{MemoryStore, load, reap_once}
use security_go.Session.MemoryStore.Laws.{load-reap_once}

abbrev expired : MemoryStore
expired = record { entries = ("old", record { value = "x"; expires = 1 }) ∷ []; done = false }

load-reap_once_example : load (reap_once expired 5) 6 "old" ≡ load expired 6 "old"
load-reap_once_example = load-reap_once expired 5 6 "old" (tt, tt) (omega arith)
