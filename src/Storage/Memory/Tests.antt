-- ===== src/Storage/Memory/Tests.antt =====
-- storage/memory.go: examples.
use security_go.Shared.{◌≡◌, refl, arith, [], ◌∷◌}
use security_go.Storage.{incr, get, block, is_blocked, calls}
use security_go.Storage.Memory.{new_memory, memory_backend}
use security_go.Storage.Memory.Reaping.{Step, run, requests, run-new_memory}

-- A tick after the window of the counter and the end of the ban.
run-new_memory_example :
    run new_memory (
      (1, Step.asks (incr "k" 5))
      ∷ (2, Step.asks (block "k" 3))
      ∷ (9, Step.reaps)
      ∷ (10, Step.asks (get "k"))
      ∷ (11, Step.asks (is_blocked "k"))
      ∷ (12, Step.asks (incr "k" 5))
      ∷ [])
    ≡ calls memory_backend new_memory (
        (1, incr "k" 5)
        ∷ (2, block "k" 3)
        ∷ (10, get "k")
        ∷ (11, is_blocked "k")
        ∷ (12, incr "k" 5)
        ∷ [])
unfolding requests
run-new_memory_example =
    run-new_memory (λ k. 5)
      ((1, Step.asks (incr "k" 5))
        ∷ (2, Step.asks (block "k" 3))
        ∷ (9, Step.reaps)
        ∷ (10, Step.asks (get "k"))
        ∷ (11, Step.asks (is_blocked "k"))
        ∷ (12, Step.asks (incr "k" 5))
        ∷ [])
      (λ k. omega arith)
      (omega arith, (omega arith, (omega arith, (omega arith, (omega arith, (omega arith, tt))))))
      (refl, (tt, (tt, (tt, (tt, (refl, tt))))))
