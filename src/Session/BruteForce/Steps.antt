-- ===== src/Session/BruteForce/Steps.antt =====
-- session/bruteforce.go: the steps of `RecordFailure`, over any store that does not fail.
use text.Mathlib.Text.{◌==◌ as str_eq}
use security_go.Shared.{
  ℕ, ◌+◌, ◌≡◌, refl, ◌∙◌, false, String, Option, none, some, ok, ltb, if◌then◌else◌, eq_refl,
}
use security_go.Shared.Keys.{clash-eq}
use security_go.Shared.Time.{Instant, Duration}
use security_go.Session.{Store, IsStore, Request, Packages, Laws}
use security_go.Session.Tracker.Running.{bind-ok}
use security_go.Session.Tracker.{
  return, ◌>>◌, ◌>>=◌, Tracker, M, hash_token, lock_key, failure_key, strike_key, stuffing_key,
  client_ip,
}
use security_go.Session.Lockout.{failure_window, backoff_window, lock_for, locked}
use security_go.Session.BruteForce.{
  load_key, save_key, locked_until, counter_of, bump, lock_out, record_stuffing, count_failure,
  write_failure, record_failure,
}
use security_go.Session.BruteForce.Touching.{
  stored, save-eq, IsReadable, record_stuffing-Touches, IsReadable-after,
  record_stuffing-IsReadable,
}

module _ {S : Type 0} (p : Packages) (laws : Laws p) (store : Store S) (is : IsStore store)
    (t : Tracker) where
  -- A counter is read, and written back one greater.
  bump-eq :
      (s : S) (now : Instant) (key : String) (ttl : Duration) (value : Option String)
      → store.load s now key ≡ ok value
      → let n = counter_of p store t now value + 1 in
        bump p store t now key ttl s ≡ (ok n, stored p laws store is t s now key (p.itoa n) ttl)
  unfolding bump
  bump-eq s now key ttl value h =
      let n = counter_of p store t now value + 1 in
      bind-ok (load_key p store t now key)
        (λ v.
          save_key p store t now key (p.itoa (counter_of p store t now v + 1)) ttl
          >> return (counter_of p store t now v + 1))
        s (λ i. (h i, s))
      ∙ bind-ok (save_key p store t now key (p.itoa n) ttl) (λ _. return n) s
          (save-eq p laws store is t s now key (p.itoa n) ttl)

  -- A crossing is counted, and the lockout is stored for its length.
  pub lock_out-eq :
      (s : S) (now : Instant) (identity : String) (value : Option String)
      → store.load s now (strike_key p identity) ≡ ok value
      → let n = counter_of p store t now value + 1 in
        let d = lock_for t n in
        let s' =
          stored p laws store is t s now (strike_key p identity) (p.itoa n) (backoff_window t) in
        lock_out p store t now identity s
        ≡ (ok tt, stored p laws store is t s' now (lock_key p identity) (p.format_time (now + d)) d)
  unfolding lock_out
  lock_out-eq s now identity value h =
      bind-ok (bump p store t now (strike_key p identity) (backoff_window t))
        (λ n.
          save_key p store t now (lock_key p identity) (p.format_time (now + lock_for t n))
            (lock_for t n))
        s (bump-eq s now (strike_key p identity) (backoff_window t) value h)
      ∙ save-eq p laws store is t _ now (lock_key p identity) _ _

  -- A failure is counted after its lockout or, below the threshold and during a lockout, at once.
  pub record_failure-eq :
      (s : S) (now : Instant) (identity : String) (r : Option Request) (value : Option String)
      (until : Option Instant)
      → str_eq identity "" ≡ false
      → store.load s now (failure_key p identity) ≡ ok value
      → locked p store now identity s ≡ ok until
      → record_failure p store t now identity r s
        ≡ count_failure p store t now identity r (counter_of p store t now value + 1) until s
  unfolding record_failure
  record_failure-eq s now identity r value until named read lock = rw named (
      bind-ok (load_key p store t now (failure_key p identity)) after_load s (λ i. (read i, s))
      ∙ bind-ok (locked_until p store t now identity)
          (count_failure p store t now identity r (counter_of p store t now value + 1)) s
          (λ i. (lock i, s)))
    where
      after_load : Option String → M S (Unit {0})
      after_load v =
          locked_until p store t now identity
          >>= count_failure p store t now identity r (counter_of p store t now v + 1)

  -- Writing the failure leaves the lock and the strikes alone, and stores the counter.
  pub record Written (identity : String) (n : ℕ) (now : Instant) (ip : String) (s s' : S)
      : Type 0 where
    pub counter :
        (later : Instant)
        → store.load s' later (failure_key p identity)
          ≡ ok (if ltb (now + failure_window t) later then none else some (p.itoa n))
    pub others :
        (later : Instant) (j : String)
        → str_eq (failure_key p identity) j ≡ false
        → str_eq (stuffing_key p ip) j ≡ false
        → store.load s' later j ≡ store.load s later j
    pub readable : IsReadable p laws store is t ip s'

  pub write_failure-Written :
      (s : S) (now : Instant) (identity : String) (r : Option Request) (n : ℕ)
      → IsReadable p laws store is t (client_ip p t r) s
      → (s' : S) × (write_failure p store t now identity r n s ≡ (ok tt, s'))
        × Written identity n now (client_ip p t r) s s'
  unfolding write_failure
  write_failure-Written s now identity r n readable =
      let key = failure_key p identity in
      let ip = client_ip p t r in
      let mid = record_stuffing p store t now identity ip s in
      let touched = record_stuffing-Touches p laws store is t s now identity ip readable in
      (
        stored p laws store is t mid.1 now key (p.itoa n) (failure_window t),
        bind-ok (record_stuffing p store t now identity ip)
              (λ _. save_key p store t now key (p.itoa n) (failure_window t)) s
              (λ i. (touched.succeeds i, mid.1))
            ∙ save-eq p laws store is t mid.1 now key (p.itoa n) (failure_window t),
        record {
          counter = λ later.
              is.load-save mid.1 now later key key (p.itoa n) (failure_window t)
              ∙ rw (eq_refl key) refl;
          others = λ later j not_counter not_stuffing.
              is.load-save mid.1 now later key j (p.itoa n) (failure_window t)
              ∙ rw not_counter (touched.others later j not_stuffing);
          readable =
              IsReadable-after p laws store is t ip mid.1 _
                (λ later.
                  is.load-save mid.1 now later key (stuffing_key p ip) (p.itoa n) (failure_window t)
                  ∙ rw (clash-eq "fail:" "stuff:" (hash_token p identity) (hash_token p ip) refl)
                      refl)
                (record_stuffing-IsReadable p laws store is t s now identity ip readable);
        },
      )
