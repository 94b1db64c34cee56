-- ===== src/Session/BruteForce/Locking.antt =====
-- session/bruteforce.go: which failures lock an identity out, and until when.
use text.Mathlib.Text.{◌==◌ as str_eq}
use security_go.Shared.{
  ℕ, ◌+◌, ◌*◌, ◌/◌, ◌≤◌, ◌≡◌, refl, ap, ◌∙◌, false, not, ◌&&◌, String, Option, none, some, ok, ltb,
  leb, le→leb, if◌then◌else◌, arith, Bool-cases, inl, inr, eq_refl, true,
}
use security_go.Shared.Keys.{clash-eq}
use security_go.Shared.Time.{Instant, second}
use security_go.Session.{Store, IsStore, Request, Packages, Laws}
use security_go.Session.Tracker.Running.{bind-ok}
use security_go.Session.Tracker.{
  Tracker, hash_token, lock_key, failure_key, strike_key, stuffing_key, client_ip,
}
use security_go.Session.Lockout.{failures, backoff_window, lock_for, locked, lock_end}
use security_go.Session.BruteForce.{
  is_some, counter_of, lock_out, count_failure, write_failure, record_failure,
}
use security_go.Session.BruteForce.Touching.{stored, IsReadable, IsReadable-after}
use security_go.Session.BruteForce.Steps.{
  lock_out-eq, record_failure-eq, Written, write_failure-Written,
}

-- The end of a lockout as the store keeps it: whole seconds.
abbrev pub whole : Instant → Instant
whole until = until / second * second

-- Locked before that end, and not from it on.
abbrev pub lock_at : Instant → Instant → Option Instant
lock_at until later = if ltb later until then some until else none

module _ {S : Type 0} (p : Packages) (laws : Laws p) (store : Store S) (is : IsStore store)
    (t : Tracker) where
  locked-load :
      (s : S) (later : Instant) (identity : String) (value : Option String)
      → store.load s later (lock_key p identity) ≡ ok value
      → locked p store later identity s ≡ ok (lock_end p store later value)
  unfolding locked
  locked-load s later identity value h = rw (h, locked)

  pub locked_same :
      (s s' : S) (later : Instant) (identity : String)
      → store.load s' later (lock_key p identity) ≡ store.load s later (lock_key p identity)
      → locked p store later identity s' ≡ locked p store later identity s
  unfolding locked
  locked_same s s' later identity same = rw (locked, same) refl

  lock_end-format :
      (until later : Instant)
      → lock_end p store later (if ltb until later then none else some (p.format_time until))
        ≡ lock_at (whole until) later
  unfolding lock_end
  lock_end-format until later = elim (Bool-cases (ltb until later)) [
    | inl over ↦ rw over (ground arith)
    | inr live ↦ rw (live, lock_end, laws.parse_time-format_time until) refl
  ]

  -- A lockout that is stored until `until`.
  pub locked-stored :
      (s : S) (until later : Instant) (identity : String)
      → store.load s later (lock_key p identity)
        ≡ ok (if ltb until later then none else some (p.format_time until))
      → locked p store later identity s ≡ ok (lock_at (whole until) later)
  locked-stored s until later identity h =
      locked-load s later identity _ h ∙ ap ok (lock_end-format until later)

  -- Below the threshold, and during a lockout, a failure only raises the counter: the lock and the
  -- strikes stay as they are.
  pub record_failure-below :
      (s : S) (now : Instant) (identity : String) (r : Option Request) (value : Option String)
      (until : Option Instant)
      → str_eq identity "" ≡ false
      → store.load s now (failure_key p identity) ≡ ok value
      → locked p store now identity s ≡ ok until
      → IsReadable p laws store is t (client_ip p t r) s
      → let n = counter_of p store t now value + 1 in
        (leb (failures t) n && not (is_some until)) ≡ false
        → (s' : S) × (record_failure p store t now identity r s ≡ (ok tt, s'))
          × Written p laws store is t identity n now (client_ip p t r) s s'
  unfolding count_failure
  record_failure-below s now identity r value until named read lock readable below =
      let n = counter_of p store t now value + 1 in
      let (s', written, w) = write_failure-Written p laws store is t s now identity r n readable in
      (
        s',
        record_failure-eq p laws store is t s now identity r value until named read lock
            ∙ rw (below, count_failure) written,
        w,
      )

  -- The store after a crossing, before the failure is written.
  abbrev pub crossed : S → Instant → String → ℕ → S
  crossed s now identity strikes =
      let d = lock_for t strikes in
      let s' =
        stored p laws store is t s now (strike_key p identity) (p.itoa strikes)
          (backoff_window t) in
      stored p laws store is t s' now (lock_key p identity) (p.format_time (now + d)) d

  pub crossed-others :
      (s : S) (now later : Instant) (identity : String) (strikes : ℕ) (j : String)
      → str_eq (lock_key p identity) j ≡ false
      → str_eq (strike_key p identity) j ≡ false
      → store.load (crossed s now identity strikes) later j ≡ store.load s later j
  crossed-others s now later identity strikes j not_lock not_strike =
      is.load-save _ now later (lock_key p identity) j _ _
      ∙ rw not_lock (is.load-save s now later (strike_key p identity) j _ _ ∙ rw not_strike refl)

  pub crossed-lock :
      (s : S) (now later : Instant) (identity : String) (strikes : ℕ)
      → store.load (crossed s now identity strikes) later (lock_key p identity)
        ≡ ok (
            if ltb (now + lock_for t strikes) later
            then none
            else some (p.format_time (now + lock_for t strikes)))
  crossed-lock s now later identity strikes =
      is.load-save _ now later (lock_key p identity) (lock_key p identity) _ _
      ∙ rw (eq_refl (lock_key p identity)) refl

  pub crossed-IsReadable :
      (s : S) (now : Instant) (identity ip : String) (strikes : ℕ)
      → IsReadable p laws store is t ip s
      → IsReadable p laws store is t ip (crossed s now identity strikes)
  crossed-IsReadable s now identity ip strikes readable =
      let h = hash_token p identity in
      IsReadable-after p laws store is t ip s (crossed s now identity strikes)
        (λ later.
          crossed-others s now later identity strikes (stuffing_key p ip)
            (clash-eq "lock:" "stuff:" h (hash_token p ip) refl)
            (clash-eq "strike:" "stuff:" h (hash_token p ip) refl))
        readable

  -- A crossing of the threshold is stored before the failure is.
  pub record_failure-crossed :
      (s : S) (now : Instant) (identity : String) (r : Option Request)
      (value strikes : Option String) (until : Option Instant)
      → str_eq identity "" ≡ false
      → store.load s now (failure_key p identity) ≡ ok value
      → store.load s now (strike_key p identity) ≡ ok strikes
      → locked p store now identity s ≡ ok until
      → IsReadable p laws store is t (client_ip p t r) s
      → let n = counter_of p store t now value + 1 in
        let mid = crossed s now identity (counter_of p store t now strikes + 1) in
        (leb (failures t) n && not (is_some until)) ≡ true
        → (s' : S) × (record_failure p store t now identity r s ≡ (ok tt, s'))
          × Written p laws store is t identity n now (client_ip p t r) mid s'
  unfolding count_failure
  record_failure-crossed s now identity r value strikes until named read struck lock readable
        crosses =
      let n = counter_of p store t now value + 1 in
      let k = counter_of p store t now strikes + 1 in
      let mid = crossed s now identity k in
      let (s', written, w) =
        write_failure-Written p laws store is t mid now identity r n
          (crossed-IsReadable s now identity (client_ip p t r) k readable) in
      (
        s',
        record_failure-eq p laws store is t s now identity r value until named read lock
            ∙ rw (crosses, count_failure)
                (bind-ok (lock_out p store t now identity)
                    (λ _. write_failure p store t now identity r n) s
                    (lock_out-eq p laws store is t s now identity strikes struck)
                  ∙ written),
        w,
      )

  -- At the threshold, a failure of an identity that is not locked locks it for the length that its
  -- strikes give, to the whole second below, and counts one strike more.
  pub record_failure-locks :
      (s : S) (now : Instant) (identity : String) (r : Option Request)
      (value strikes : Option String)
      → str_eq identity "" ≡ false
      → store.load s now (failure_key p identity) ≡ ok value
      → store.load s now (strike_key p identity) ≡ ok strikes
      → locked p store now identity s ≡ ok none
      → IsReadable p laws store is t (client_ip p t r) s
      → failures t ≤ counter_of p store t now value + 1
      → let d = lock_for t (counter_of p store t now strikes + 1) in
        (s' : S) × (record_failure p store t now identity r s ≡ (ok tt, s'))
        × ((later : Instant)
            → locked p store later identity s' ≡ ok (lock_at (whole (now + d)) later))
  unfolding count_failure
  record_failure-locks s now identity r value strikes named read struck lock readable reached =
      let k = counter_of p store t now strikes + 1 in
      let h = hash_token p identity in
      let (s', written, w) =
        record_failure-crossed s now identity r value strikes none named read struck lock readable
          (rw (le→leb _ _ reached) refl) in
      (
        s',
        written,
        λ later. locked-stored s' (now + lock_for t k) later identity (
            w.others later (lock_key p identity) (clash-eq "fail:" "lock:" h h refl)
              (clash-eq "stuff:" "lock:" (hash_token p (client_ip p t r)) h refl)
            ∙ crossed-lock s now later identity k),
      )
