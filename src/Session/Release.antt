-- ===== src/Session/Release.antt =====
-- session/tracker.go, lockout.go and bruteforce.go together: what the tracker stores is gone after the
-- longest of its times.
pub mod Unlocking
mod Tests
use Prim.Native.Nat.{max}
use security_go.Shared.{Bool, true, false, String, List, [], ◌∷◌, Option}
use security_go.Shared.Time.{Instant, Duration}
use security_go.Session.{Store, Request, Packages}
use security_go.Session.Tracker.{Tracker, ttl, known_net_ttl}
use security_go.Session.Lockout.{failure_window, max_lockout, backoff_window, clear_failures}
use security_go.Session.BruteForce.{record_failure, Write, guard_login}
use security_go.Session.Tracker.Checks.{issue, revoke, check, observe}

-- A call of the tracker.
pub data Call : Type 0 where
  records_failure : (identity : String) → Option Request → Call
  clears_failures : (identity : String) → Call
  guards_login : Option (Option Request → String) → Option Request → List Write → Call
  issues : (token : String) → Option Request → Call
  revokes : (token : String) → Call
  checks : Option Request → Call
  observes : (user : String) → Option Request → Call

-- The longest time that the tracker stores anything.
abbrev pub longest : Tracker → Duration
longest t =
    max (max (failure_window t) (max (max_lockout t) (backoff_window t)))
      (max (ttl t) (known_net_ttl t))

module _ {S : Type 0} (p : Packages) (store : Store S) (t : Tracker) where
  -- The store after a call. A wrapped handler writes, and leaves the store alone.
  unfoldable pub after_call : Instant → Call → S → S
  after_call now (records_failure identity r) s = (record_failure p store t now identity r s).1
  after_call now (clears_failures identity) s = (clear_failures p store identity s).1
  after_call now (guards_login identity r writes) s =
      (guard_login p store t now (λ s'. (writes, s')) identity r s).1
  after_call now (issues token r) s = (issue p store t now token r s).1
  after_call now (revokes token) s = (revoke p store t now token s).1
  after_call now (checks r) s = (check p store t now r s).1
  after_call now (observes user r) s = (observe p store t now user r s).1

  unfoldable pub after_calls : List (Instant × Call) → S → S
  unfolding after_call
  after_calls [] s = s
  after_calls ((now, c) ∷ calls) s = after_calls calls (after_call now c s)
