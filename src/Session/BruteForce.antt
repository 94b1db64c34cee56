-- ===== src/Session/BruteForce.antt =====
-- session/bruteforce.go: failure counting, progressive lockout and credential stuffing.
--
-- An operation reads the clock once, as `now`. The store is required, as in session/lockout.go;
-- `record_failure_in` is `RecordFailure` without that, where `none` is a nil store.
pub mod Touching
pub mod Steps
pub mod Locking
pub mod Sequence
pub mod Stuffing
pub mod Guarding
pub mod Refusing
pub mod Forgetting
pub mod Racing
pub mod Account
mod Tests
use Prim.Native.String.{◌++◌}
use text.Mathlib.Text.{◌==◌ as str_eq}
use security_go.Shared.{
  ℕ, suc, ◌+◌, ◌-◌, ◌/◌, Bool, true, false, ◌&&◌, ◌||◌, not, String, List, [], ◌∷◌, Option, none,
  some, Fallible, ok, err, ltb, leb, ◌==◌, if◌then◌else◌, length, drop, foldl,
}
use mathlib.Core.List.{◌++◌ as append}
use security_go.Shared.Time.{Instant, Duration, second}
use security_go.Security.{Result, clean, critical}
use security_go.Session.{Store, Request, Packages, deny}
use security_go.Session.Tracker.{
  Tracker, M, ◌>>=◌, ◌>>◌, return, fail, when, hash_token, lock_key, failure_key, strike_key,
  stuffing_key, client_ip, load_nets, save_nets, store_error, tracker_name,
}
use security_go.Session.Lockout.{
  failures, failure_window, backoff_window, stuffing_limit, lock_for, locked, is_locked,
  clear_failures,
}

-- A loop that looks for a text in a list.
unfoldable pub contains : String → List String → Bool
contains h [] = false
contains h (id ∷ ids) = str_eq id h || contains h ids

-- `ids[len(ids)-max:]` if there are more than `max`.
unfoldable pub last : ℕ → List String → List String
last max ids = if ltb max (length ids) then drop (length ids - max) ids else ids

abbrev pub is_some : Option Instant → Bool
is_some none = false
is_some (some until) = true

module _ {S : Type 0} (p : Packages) (store : Store S) (t : Tracker) (now : Instant) where
  load_key : String → M S (Option String)
  load_key key s = (store.load s now key, s)

  save_key : String → String → Duration → M S (Unit {0})
  save_key key value ttl s = store.save s now key value ttl

  -- A decimal counter, 0 where it is absent.
  unfoldable pub counter_of : Option String → ℕ
  counter_of none = 0
  counter_of (some value) = p.atoi value

  unfoldable pub bump : String → Duration → M S ℕ
  unfolding load_key save_key counter_of
  bump key ttl = do
    value ← load_key key
    let n = counter_of value + 1
    save_key key (p.itoa n) ttl
    return n

  pub locked_until : String → M S (Option Instant)
  unfolding locked
  locked_until identity s = (locked p store now identity s, s)

  -- A fresh crossing of the threshold: remember it, then lock for the escalated duration.
  unfoldable pub lock_out : String → M S (Unit {0})
  unfolding bump save_key lock_for
  lock_out identity = do
    strikes ← bump (strike_key p identity) (backoff_window t)
    let d = lock_for t strikes
    save_key (lock_key p identity) (p.format_time (now + d)) d

  load_ids : String → M S (List String)
  load_ids key s = (load_nets p store now key s, s)

  -- The list of identities that a client failed against, one longer.
  unfoldable pub add_id : String → List String → List String
  unfolding last
  add_id h ids = last (stuffing_limit t) (append ids (h ∷ []))

  -- An identity that is already counted is not stored again.
  unfoldable pub remember_id : String → String → List String → M S (Unit {0})
  unfolding contains add_id save_nets
  remember_id key h ids =
      if contains h ids
      then return tt
      else save_nets p store now key (add_id h ids) (failure_window t)

  unfoldable pub record_stuffing : String → String → M S (Unit {0})
  unfolding load_ids load_nets remember_id
  record_stuffing identity ip = if str_eq ip "" then return tt else do
    ids ← load_ids (stuffing_key p ip)
    remember_id (stuffing_key p ip) (hash_token p identity) ids

  -- The failure `n` is written last, after the stuffing list.
  unfoldable pub write_failure : String → Option Request → ℕ → M S (Unit {0})
  unfolding record_stuffing save_key client_ip
  write_failure identity r n = do
    record_stuffing identity (client_ip p t r)
    save_key (failure_key p identity) (p.itoa n) (failure_window t)

  -- The failure `n` of an identity that is locked until `until`, or not locked.
  unfoldable pub count_failure : String → Option Request → ℕ → Option Instant → M S (Unit {0})
  unfolding lock_out write_failure
  count_failure identity r n until = do
    when (leb (failures t) n && not (is_some until)) (lock_out identity)
    write_failure identity r n

  unfoldable pub record_failure : String → Option Request → M S (Unit {0})
  unfolding load_key counter_of locked_until count_failure
  record_failure identity r = if str_eq identity "" then fail "session: empty identity" else do
    value ← load_key (failure_key p identity)
    until ← locked_until identity
    count_failure identity r (counter_of value + 1) until

  -- An outage counts as no identities.
  unfoldable pub stuffing_count : String → S → ℕ
  unfolding load_nets
  stuffing_count ip s = elim (load_nets p store now (stuffing_key p ip) s) [
    | err e ↦ 0
    | ok ids ↦ length ids
  ]

  unfoldable pub check_stuffing : String → S → Result
  unfolding stuffing_count
  check_stuffing ip s =
      if not (str_eq ip "") && leb (stuffing_limit t) (stuffing_count ip s)
      then deny tracker_name "credential_stuffing"
          ("one client failed against many distinct identities: " ++ ip) critical
      else clean tracker_name

  unfoldable pub check_login : String → Option Request → S → Result
  check_login identity r s =
      if str_eq identity ""
      then check_stuffing (client_ip p t r) s
      else elim (locked p store now identity s) [
        | err e ↦ store_error t e
        | ok (some until) ↦
            deny tracker_name "token_locked"
              ("identity is locked after repeated failed attempts until " ++ p.format_time until)
              critical
        | ok none ↦ check_stuffing (client_ip p t r) s
      ]

module _ {S : Type 0} (p : Packages) where
  unfoldable pub record_failure_in :
      Option (Store S) → Tracker → Instant → String → Option Request → M S (Unit {0})
  record_failure_in none t now identity r = fail "session: empty identity"
  record_failure_in (some store) t now identity r = record_failure p store t now identity r

-- What `GuardLogin` answers: 429 with the seconds of the Retry-After header, or the status that the
-- wrapped handler recorded (0 if it wrote nothing).
pub data Response : Type 0 where
  too_many : Option ℕ → Response
  handled : ℕ → Response

-- A write of the wrapped handler: a status, or a part of the body.
pub data Write : Type 0 where
  header : ℕ → Write
  body : Write

-- `statusWriter`: the first status that is written counts, and a body means 200.
unfoldable pub write : ℕ → Write → ℕ
write status (header code) = if status == 0 then code else status
write status body = if status == 0 then 200 else status

module _ {S : Type 0} (p : Packages) (store : Store S) (t : Tracker) (now : Instant) where
  -- The header is set for whole seconds above 0.
  unfoldable pub retry_after : Option Instant → Option ℕ
  retry_after none = none
  retry_after (some until) =
      let secs = (until - now) / second in if ltb 0 secs then some secs else none

  -- What follows the wrapped handler's status.
  unfoldable pub after_status : ℕ → String → Option Request → S → S
  after_status status id r s =
      if status == 401
      then (record_failure p store t now id r s).1
      else if leb 200 status && ltb status 300
      then (clear_failures p store id s).1
      else s

  identity_of : Option (Option Request → String) → Option Request → String
  identity_of none r = ""
  identity_of (some identity) r = identity r

  -- `next` is the wrapped handler: its writes, and what it does to the store.
  unfoldable pub guard_login :
      (next : S → List Write × S)
      → Option (Option Request → String)
      → Option Request
      → S
      → Response × S
  unfolding identity_of
  guard_login next identity r s =
      let id = identity_of identity r in
      if (check_login p store t now id r s).detected
      then (too_many (retry_after (is_locked p store now id s)), s)
      else let h = next s in
        let status = foldl write 0 h.0 in (handled status, after_status status id r h.1)
