-- ===== src/Session/Lockout.antt =====
-- session/lockout.go: the storage primitives of the brute-force lockout.
--
-- The tracker's store is required. `IsLocked` and `ClearFailures` do without it, as `is_locked_in` and
-- `clear_failures_in`, where `none` is a nil store.
pub mod Backoff
pub mod Forgetting
use Prim.Native.String
use text.Mathlib.Text.{◌==◌}
use security_go.Shared.{
  ℕ, zero, suc, ◌*◌, ◌/◌, ◌-◌, Bool, String, Option, none, some, Fallible, ok, err, ltb, leb,
  if◌then◌else◌,
}
use security_go.Shared.Int.{ℤ, positive_or}
use security_go.Shared.Time.{Instant, Duration}
use security_go.Session.{Store, Packages}
use security_go.Session.Tracker.{
  Tracker, M, ◌>>◌, ◌>>=◌, fail, lock_key, failure_key, strike_key, default_failures,
  default_failure_window, default_lockout, default_max_lockout, default_backoff_window,
  default_stuffing_limit,
}

abbrev pub failures : Tracker → ℕ
failures t = positive_or t.failures default_failures

abbrev pub failure_window : Tracker → Duration
failure_window t = positive_or t.failure_window default_failure_window

abbrev pub lockout_duration : Tracker → Duration
lockout_duration t = positive_or t.lockout default_lockout

abbrev pub max_lockout : Tracker → Duration
max_lockout t = positive_or t.max_lockout default_max_lockout

abbrev pub backoff_window : Tracker → Duration
backoff_window t = positive_or t.backoff_window default_backoff_window

abbrev pub stuffing_limit : Tracker → ℕ
stuffing_limit t = positive_or t.stuffing_limit default_stuffing_limit

-- The loop of `lockFor` with the rounds that are left: double, but return `max` from its half on.
unfoldable pub double_up_to : Duration → ℕ → Duration → Duration
double_up_to max zero d = if ltb max d then max else d
double_up_to max (suc rounds) d =
    let rest = double_up_to max rounds (d * 2) in if leb (max / 2) d then max else rest

unfoldable pub lock_for : Tracker → ℕ → Duration
unfolding double_up_to
lock_for t strikes = double_up_to (max_lockout t) (strikes - 1) (lockout_duration t)

module _ {S : Type 0} (p : Packages) (store : Store S) where
  -- The end of a lockout that is stored as a text, if it lies in the future.
  unfoldable pub lock_end : Instant → Option String → Option Instant
  lock_end now none = none
  lock_end now (some value) = elim (p.parse_time (p.trim_space value)) [
    | none ↦ none
    | some until ↦ if ltb now until then some until else none
  ]

  -- `some until` is the pair `true, until`.
  unfoldable pub locked : Instant → String → S → Fallible (Option Instant)
  unfolding lock_end
  locked now identity s = elim (store.load s now (lock_key p identity)) [
    | err e ↦ err e
    | ok value ↦ ok (lock_end now value)
  ]

  -- An outage or an empty identity reads as unlocked.
  unfoldable pub is_locked : Instant → String → S → Option Instant
  is_locked now identity s =
      if identity == ""
      then none
      else elim (locked now identity s) [ err e ↦ none | ok until ↦ until ]

  unfoldable pub delete_key : String → M S (Unit {0})
  delete_key key s = store.delete s key

  unfoldable pub clear_failures : String → M S (Unit {0})
  unfolding delete_key
  clear_failures identity =
      if identity == ""
      then fail "session: empty identity"
      else delete_key (failure_key p identity) >> delete_key (strike_key p identity)

module _ {S : Type 0} (p : Packages) where
  unfoldable pub is_locked_in : Option (Store S) → Instant → String → S → Option Instant
  is_locked_in none now identity s = none
  is_locked_in (some store) now identity s = is_locked p store now identity s

  unfoldable pub clear_failures_in : Option (Store S) → String → M S (Unit {0})
  clear_failures_in none identity = fail "session: empty identity"
  clear_failures_in (some store) identity = clear_failures p store identity
