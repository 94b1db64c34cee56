-- ===== src/Session/BruteForce/Account.antt =====
-- session/bruteforce.go and session/lockout.go: what they promise of one identity, without a store.
--
-- An account counts an identity's failures and its crossings of the threshold, each until a time, and has
-- the end of its lockout.
pub mod Refinement
pub mod History
mod Tests
use security_go.Shared.{
  ℕ, ◌+◌, Bool, ◌&&◌, not, List, [], ◌∷◌, Option, none, some, ltb, leb, if◌then◌else◌,
}
use security_go.Shared.Time.{Instant}
use security_go.Session.Tracker.{Tracker}
use security_go.Session.Lockout.{failures, failure_window, backoff_window, lock_for}
use security_go.Session.BruteForce.{is_some}
use security_go.Session.BruteForce.Locking.{whole, lock_at}

pub record Account : Type 0 where
  pub failed : Option (ℕ × Instant)
  pub strikes : Option (ℕ × Instant)
  pub lock : Option Instant

abbrev pub new_account : Account
new_account = record { failed = none; strikes = none; lock = none }

-- What is left of a number, or of a lockout, at a moment.
abbrev pub live : Instant → Option (ℕ × Instant) → Option ℕ
live now none = none
live now (some (n, until)) = if ltb until now then none else some n

abbrev pub live_lock : Instant → Option Instant → Option Instant
live_lock now none = none
live_lock now (some until) = lock_at until now

abbrev pub number : Option ℕ → ℕ
number none = 0
number (some n) = n

module _ (t : Tracker) where
  -- The threshold is crossed by the failure `n`, unless the account is locked.
  unfoldable pub crosses : Instant → Account → ℕ → Bool
  crosses now a n = leb (failures t) n && not (is_some (live_lock now a.lock))

  abbrev pub counted : Instant → Account → ℕ → Account
  counted now a n = record a { failed = some (n, now + failure_window t) }

  -- The `k`-th crossing locks for the length that it gives, to the whole second below.
  abbrev pub struck : Instant → Account → ℕ → Account
  struck now a k = record a {
    strikes = some (k, now + backoff_window t);
    lock = some (whole (now + lock_for t k));
  }

  unfoldable pub fail : Instant → Account → Account
  unfolding crosses lock_for
  fail now a =
      let n = number (live now a.failed) + 1 in
      let k = number (live now a.strikes) + 1 in
      if crosses now a n then counted now (struck now a k) n else counted now a n

  -- A login that succeeds.
  abbrev pub clear : Account → Account
  clear a = record a { failed = none; strikes = none }

-- What happens to an account.
pub data Event : Type 0 where
  fails : Instant → Event
  clears : Event

unfoldable pub account_after : Tracker → List Event → Account → Account
unfolding fail
account_after t [] a = a
account_after t (fails now ∷ es) a = account_after t es (fail t now a)
account_after t (clears ∷ es) a = account_after t es (clear t a)
