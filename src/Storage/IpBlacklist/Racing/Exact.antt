-- ===== src/Storage/IpBlacklist/Racing/Exact.antt =====
-- httpval/ip_blacklist.go over storage/memory.go: attacks at the same time within one window.
use security_go.Shared.{
  ℕ, suc, ◌+◌, ◌≤◌, ◌≡◌, ◌⊎◌, refl, sym, subst, ◌∙◌, min, true, String, List, none, ltb, ltb→lt,
  lt→ltb, arith, All, Bool-cases, inl, inr,
}
use security_go.Shared.Assoc.{lookup}
use security_go.Shared.Time.{Instant}
use security_go.Storage.Memory.{Memory, memory_backend}
use security_go.Storage.IpBlacklist.{IpBlacklist, detect}
use security_go.Storage.IpBlacklist.Threshold.{detect-blocked}
use security_go.Storage.IpBlacklist.Racing.{Attack, Turns, stay, more, arriving, Within, IsBack}
use security_go.Storage.IpBlacklist.Racing.Counts.{
  is_spared, count_of, Turn-Change, none_counted, all_counted,
}
use security_go.Storage.IpBlacklist.Racing.Window.{InvAll, change-Inv}

module _ (ip : String) (b : IpBlacklist) (begin : Instant) (spared : ℕ)
    (h : b.threshold ≡ suc spared) where
  Turns-Inv :
      {qs : List (String × Attack)} {m : Memory} {qs' : List (String × Attack)} {m' : Memory}
      → Turns memory_backend b (Within b begin) qs m qs' m'
      → InvAll ip b begin spared h qs m
      → InvAll ip b begin spared h qs' m'
  Turns-Inv stay i = i
  Turns-Inv (more now in_time before turn) i =
      let (j, a, e, counts) = Turn-Change ip memory_backend b now turn in
      subst (InvAll ip b begin spared h _) (sym e)
        (change-Inv ip b begin spared h now j a _ _ _ in_time counts (Turns-Inv before i))

  -- No attack comes or goes.
  Turns-same :
      {qs : List (String × Attack)} {m : Memory} {qs' : List (String × Attack)} {m' : Memory}
      → Turns memory_backend b (Within b begin) qs m qs' m'
      → count_of ip (λ a. true) qs' ≡ count_of ip (λ a. true) qs
  Turns-same stay = refl
  Turns-same (more now in_time before turn) =
      let (j, a, e, counts) = Turn-Change ip memory_backend b now turn in
      omega (arith, counts (λ a. true), Turns-same before)

  begins :
      (ips : List String) (m : Memory)
      → lookup ip m.events ≡ none
      → InvAll ip b begin spared h (arriving ips) m
  begins ips m new =
      let (c, p) = none_counted ip ips in
      rw (c, p)
        (record {
          start = begin;
          after = omega arith;
          counted = new;
          fair = omega arith;
          punished = inl (omega arith);
        })

  -- Attacks from any addresses, recorded at the same time with their calls in any order, within one
  -- window, over a memory backend that has no counter of the address. When all have returned, as many
  -- attacks from the address went unpunished as the threshold spares, which is one less than it, or all
  -- if there were no more. If there were more, `Detect` reports the address at every moment before the
  -- end of a ban from the beginning of the window.
  pub detect_racing :
      (ips : List String) (m : Memory) (qs : List (String × Attack)) (m' : Memory) (later : Instant)
      → lookup ip m.events ≡ none
      → Turns memory_backend b (Within b begin) (arriving ips) m qs m'
      → All IsBack qs
      → let n = count_of ip (λ a. true) (arriving ips) in
        (count_of ip is_spared qs ≡ min n spared)
        × ((n ≤ spared)
            ⊎ ((begin + b.ban_duration ≤ later)
                ⊎ ((detect memory_backend b m' later ip).detected ≡ true)))
  detect_racing ips m qs m' later new turns back =
      let i = Turns-Inv turns (begins ips m new) in
      let (all, none_waits) = all_counted ip qs back in
      let same = Turns-same turns in
      (
        omega (arith, i.fair, all, same),
        elim i.punished [
          | inl few ↦ inl (omega (arith, few, all, same))
          | inr (inl waits) ↦ absurd (omega (arith, waits, none_waits))
          | inr (inr (until, banned, long)) ↦
              elim (Bool-cases (ltb later (begin + b.ban_duration))) [
                | inl before ↦ inr (
                    inr (
                      detect-blocked b ip m' later until banned
                      ∙ lt→ltb later until (omega (arith, long, ltb→lt later _ before))))
                | inr over ↦ inr (inl (ground arith))
              ]
        ],
      )
