-- ===== src/Storage/IpBlacklist/Racing.antt =====
-- httpval/ip_blacklist.go: attacks that are recorded at the same time.
--
-- The backend is locked during a call of it, and `RecordAttack` makes up to two: between them those of
-- other attacks may come.
pub mod Alone
pub mod Counts
pub mod Window
pub mod Exact
mod Tests
use security_go.Shared.{
  ◌+◌, ◌≤◌, ◌≡◌, ℕ, Bool, true, false, String, List, [], ◌∷◌, Fallible, ok, err, leb, if◌then◌else◌,
}
use security_go.Shared.Time.{Instant}
use security_go.Storage.{Backend}
use security_go.Storage.IpBlacklist.{IpBlacklist}

-- How far `RecordAttack` has come: before its first call, before its second one, or back.
pub data Attack : Type 0 where
  arrives : Attack
  reaches : Attack
  returns : Fallible Bool → Attack

module _ {S : Type 0} (storage : Backend S) (b : IpBlacklist) where
  -- The answer to `Incr`, and to `Block`.
  unfoldable pub after_incr : Fallible ℕ → Attack
  after_incr (err e) = returns (err e)
  after_incr (ok count) = if leb b.threshold count then reaches else returns (ok false)

  unfoldable pub after_block : Fallible (Unit {0}) → Attack
  after_block (err e) = returns (err e)
  after_block (ok _) = returns (ok true)

  -- The next call of `RecordAttack`.
  unfoldable pub next_call : Instant → String → Attack → S → Attack × S
  unfolding after_incr after_block
  next_call now ip arrives s = let r = storage.incr s now ip b.window in (after_incr r.0, r.1)
  next_call now ip reaches s =
      let r = storage.block s now ip b.ban_duration in (after_block r.0, r.1)
  next_call now ip (returns x) s = (returns x, s)

  -- One of the attacks, each from an address, makes its next call.
  pub data Turn (now : Instant)
      : List (String × Attack) → S → List (String × Attack) → S → Type 0 where
    first :
        (ip : String) (a : Attack) (qs : List (String × Attack)) (s : S)
        → Turn now ((ip, a) ∷ qs) s ((ip, (next_call now ip a s).0) ∷ qs) (next_call now ip a s).1
    other :
        (q : String × Attack) {qs qs' : List (String × Attack)} {s s' : S}
        → Turn now qs s qs' s'
        → Turn now (q ∷ qs) s (q ∷ qs') s'

  -- Calls in any order, at times of which `Within` holds.
  pub data Turns (Within : Instant → Type 0) (qs : List (String × Attack)) (s : S)
      : List (String × Attack) → S → Type 0 where
    stay : Turns Within qs s qs s
    more :
        {qs' qs'' : List (String × Attack)} {s' s'' : S} (now : Instant)
        → Within now
        → Turns Within qs s qs' s'
        → Turn now qs' s' qs'' s''
        → Turns Within qs s qs'' s''

-- An attack that has not happened yet from each address of a list.
unfoldable pub arriving : List String → List (String × Attack)
arriving [] = []
arriving (ip ∷ ips) = (ip, arrives) ∷ arriving ips

-- A window that begins at `begin`.
abbrev pub Within : IpBlacklist → Instant → Instant → Type 0
Within b begin now = (begin ≤ now) × (now ≤ begin + b.window)

abbrev pub IsBack : String × Attack → Type 0
IsBack q = (x : Fallible Bool) × (q.1 ≡ returns x)
