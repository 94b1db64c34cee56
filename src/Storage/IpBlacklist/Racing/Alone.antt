-- ===== src/Storage/IpBlacklist/Racing/Alone.antt =====
-- httpval/ip_blacklist.go: the calls of an attack, made without a break, are `RecordAttack`.
use security_go.Shared.{◌≡◌, refl, String, Fallible-cases, Bool-cases, inl, inr, leb}
use security_go.Shared.Time.{Instant}
use security_go.Storage.{Backend}
use security_go.Storage.IpBlacklist.{IpBlacklist, ban, record_attack}
use security_go.Storage.IpBlacklist.Racing.{
  arrives, reaches, returns, after_incr, after_block, next_call,
}

module _ {S : Type 0} (storage : Backend S) (b : IpBlacklist) (now : Instant) (ip : String) where
  second_call :
      (s : S)
      → let r = ban storage b s now ip in next_call storage b now ip reaches s ≡ (returns r.0, r.1)
  unfolding next_call after_block ban
  second_call s = elim (Fallible-cases (storage.block s now ip b.ban_duration).0) [
    | inl (e, bad) ↦ rw (bad, next_call, after_block, ban) refl
    | inr (u, done) ↦ rw (done, next_call, after_block, ban) refl
  ]

  -- Two calls, of which the second may be missing.
  pub next_call-record_attack :
      (s : S)
      → let q = next_call storage b now ip arrives s in
        let r = record_attack storage b s now ip in
        next_call storage b now ip q.0 q.1 ≡ (returns r.0, r.1)
  unfolding next_call after_incr record_attack
  next_call-record_attack s =
      let s' = (storage.incr s now ip b.window).1 in
      elim (Fallible-cases (storage.incr s now ip b.window).0) [
        | inl (e, bad) ↦ rw (bad, next_call, after_incr, record_attack) refl
        | inr (count, good) ↦ elim (Bool-cases (leb b.threshold count)) [
          | inl reached ↦ rw (good, next_call, after_incr, record_attack, reached) (second_call s')
          | inr below ↦ rw (good, next_call, after_incr, record_attack, below) refl
        ]
      ]
