-- ===== src/Storage/IpBlacklist/Tests.antt =====
-- httpval/ip_blacklist.go: examples over the in-memory backend.
use security_go.Shared.{◌≡◌, refl, arith, true, false, [], ◌∷◌, ok}
use security_go.Shared.Assoc.{lookup}
use security_go.Storage.Memory.{memory_backend, new_memory, incr_event}
use security_go.Storage.IpBlacklist.{IpBlacklist, detect}
use security_go.Storage.IpBlacklist.Threshold.{attacks, after, attacks-answers}

abbrev strict : IpBlacklist
strict = record { threshold = 2; window = 10; ban_duration = 100 }

-- The third attack, in the ninth moment, bans until the 109th.
attacks-answers_example :
    (attacks strict "a" new_memory (1 ∷ 5 ∷ 9 ∷ []) ≡ ok false ∷ ok true ∷ ok true ∷ [])
    × ((detect memory_backend strict
          (after strict "a" new_memory (1 ∷ 5 ∷ 9 ∷ []))
          108
          "a").detected
        ≡ true)
unfolding incr_event new_memory lookup
attacks-answers_example =
    attacks-answers strict "a" new_memory 1 108 (5 ∷ 9 ∷ []) refl (omega arith, (omega arith, tt))
