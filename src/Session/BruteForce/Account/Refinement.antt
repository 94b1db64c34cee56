-- ===== src/Session/BruteForce/Account/Refinement.antt =====
-- session/bruteforce.go and session/lockout.go: the store of a tracker shows an identity's account.
use text.Mathlib.Text.{◌==◌ as str_eq}
use security_go.Shared.{
  ℕ, ◌+◌, ◌≡◌, refl, sym, subst, ◌∙◌, false, String, Option, none, some, ok, ltb, if◌then◌else◌,
  Bool-cases, inl, inr, eq_refl,
}
use security_go.Shared.Keys.{clash-eq}
use security_go.Shared.Time.{Instant}
use security_go.Session.{Store, IsStore, Request, Packages, Laws}
use security_go.Session.Tracker.Running.{bind-ok}
use security_go.Session.Tracker.{
  Tracker, hash_token, lock_key, failure_key, strike_key, stuffing_key, client_ip,
}
use security_go.Session.Lockout.{
  failure_window, backoff_window, lock_for, locked, delete_key, clear_failures,
}
use security_go.Session.BruteForce.{counter_of, record_failure}
use security_go.Session.BruteForce.Touching.{IsReadable, IsReadable-after}
use security_go.Session.BruteForce.Steps.{Written}
use security_go.Session.BruteForce.Locking.{
  locked_same, locked-stored, crossed, crossed-others, crossed-lock, crossed-IsReadable,
  record_failure-below, record_failure-crossed,
}
use security_go.Session.BruteForce.Account.{
  Account, live, live_lock, number, crosses, counted, struck, fail, clear,
}

module _ {S : Type 0} (p : Packages) (laws : Laws p) (store : Store S) (is : IsStore store)
    (t : Tracker) (identity : String) (r : Option Request) where
  abbrev pub shown : Option ℕ → Option String
  shown none = none
  shown (some n) = some (p.itoa n)

  -- What is read of the identity, at any time, is its account.
  pub record Shows (s : S) (a : Account) : Type 0 where
    pub failed :
        (later : Instant)
        → store.load s later (failure_key p identity) ≡ ok (shown (live later a.failed))
    pub strikes :
        (later : Instant)
        → store.load s later (strike_key p identity) ≡ ok (shown (live later a.strikes))
    pub lock : (later : Instant) → locked p store later identity s ≡ ok (live_lock later a.lock)
    pub readable : IsReadable p laws store is t (client_ip p t r) s

  counter_of-shown : (now : Instant) (o : Option ℕ) → counter_of p store t now (shown o) ≡ number o
  unfolding counter_of
  counter_of-shown now none = refl
  counter_of-shown now (some n) = laws.atoi-itoa n

  shown-live :
      (later until : Instant) (n : ℕ)
      → ok (if ltb until later then none else some (p.itoa n))
        ≡ ok (shown (live later (some (n, until))))
  shown-live later until n = elim (Bool-cases (ltb until later)) [
    | inl over ↦ rw over refl
    | inr going ↦ rw going refl
  ]

  abbrev hash : String
  hash = hash_token p identity

  abbrev client : String
  client = hash_token p (client_ip p t r)

  counted-Shows :
      (s s' : S) (now : Instant) (a : Account) (n : ℕ)
      → Written p laws store is t identity n now (client_ip p t r) s s'
      → Shows s a
      → Shows s' (counted t now a n)
  counted-Shows s s' now a n w h = record {
    failed = λ later. w.counter later ∙ shown-live later (now + failure_window t) n;
    strikes = λ later.
        w.others later (strike_key p identity) (clash-eq "fail:" "strike:" hash hash refl)
          (clash-eq "stuff:" "strike:" client hash refl)
        ∙ h.strikes later;
    lock = λ later.
        locked_same p laws store is t s s' later identity (
          w.others later (lock_key p identity) (clash-eq "fail:" "lock:" hash hash refl)
            (clash-eq "stuff:" "lock:" client hash refl))
        ∙ h.lock later;
    readable = w.readable;
  }

  struck-Shows :
      (s : S) (now : Instant) (a : Account) (k : ℕ)
      → Shows s a
      → Shows (crossed p laws store is t s now identity k) (struck t now a k)
  struck-Shows s now a k h = record {
    failed = λ later.
        crossed-others p laws store is t s now later identity k (failure_key p identity)
          (clash-eq "lock:" "fail:" hash hash refl) (clash-eq "strike:" "fail:" hash hash refl)
        ∙ h.failed later;
    strikes = λ later.
        is.load-save _ now later (lock_key p identity) (strike_key p identity) _ _
        ∙ rw (clash-eq "lock:" "strike:" hash hash refl) (
            is.load-save s now later (strike_key p identity) (strike_key p identity) _ _
            ∙ rw (eq_refl (strike_key p identity)) (shown-live later (now + backoff_window t) k));
    lock = λ later.
        locked-stored p laws store is t (crossed p laws store is t s now identity k)
          (now + lock_for t k) later identity
          (crossed-lock p laws store is t s now later identity k);
    readable = crossed-IsReadable p laws store is t s now identity (client_ip p t r) k h.readable;
  }

  -- A failure succeeds, and the account has it.
  abbrev pub Failed : S → Instant → Account → Type 0
  Failed s now a =
      ((record_failure p store t now identity r s).0 ≡ ok tt)
      × Shows (record_failure p store t now identity r s).1 (fail t now a)

  pub fail-Shows :
      (s : S) (now : Instant) (a : Account)
      → str_eq identity "" ≡ false
      → Shows s a
      → Failed s now a
  unfolding fail crosses
  fail-Shows s now a named h =
      let n = number (live now a.failed) + 1 in
      let k = number (live now a.strikes) + 1 in
      let value = shown (live now a.failed) in
      let as_counted = counter_of-shown now (live now a.failed) in
      let as_struck = counter_of-shown now (live now a.strikes) in
      elim (Bool-cases (crosses t now a n)) [
        | inl yes_crosses ↦
            let (s', done, w) =
              record_failure-crossed p laws store is t s now identity r value
                (shown (live now a.strikes)) (live_lock now a.lock) named (h.failed now)
                (h.strikes now) (h.lock now) h.readable (rw as_counted yes_crosses) in
            let w' = rw (as_counted, as_struck) at w in
            subst (λ x. (x.0 ≡ ok tt) × Shows x.1 (fail t now a)) (sym done)
              (
                refl,
                rw yes_crosses (
                    counted-Shows (crossed p laws store is t s now identity k) s' now
                      (struck t now a k) n w' (struck-Shows s now a k h)),
              )
        | inr no_crossing ↦
            let (s', done, w) =
              record_failure-below p laws store is t s now identity r value (live_lock now a.lock)
                named (h.failed now) (h.lock now) h.readable (rw as_counted no_crossing) in
            let w' = rw as_counted at w in
            subst (λ x. (x.0 ≡ ok tt) × Shows x.1 (fail t now a)) (sym done)
              (refl, rw no_crossing (counted-Shows s s' now a n w' h))
      ]

  delete-others :
      (s : S) (k j : String) (later : Instant)
      → str_eq k j ≡ false
      → store.load (store.delete s k).1 later j ≡ store.load s later j
  delete-others s k j later differs = is.load-delete s later k j ∙ rw differs refl

  delete-same :
      (s : S) (k : String) (later : Instant) → store.load (store.delete s k).1 later k ≡ ok none
  delete-same s k later = is.load-delete s later k k ∙ rw (eq_refl k) refl

  -- What is stored after the two deletions.
  abbrev pub cleared : S → S
  cleared s = (store.delete (store.delete s (failure_key p identity)).1 (strike_key p identity)).1

  pub clear_failures-eq :
      (s : S) → str_eq identity "" ≡ false → clear_failures p store identity s ≡ (ok tt, cleared s)
  unfolding clear_failures delete_key
  clear_failures-eq s named = rw named (
      bind-ok (delete_key p store (failure_key p identity))
        (λ _. delete_key p store (strike_key p identity)) s
        (λ i.
          (is.deletes s (failure_key p identity) i, (store.delete s (failure_key p identity)).1))
      ∙ (λ i. (
        is.deletes (store.delete s (failure_key p identity)).1 (strike_key p identity) i,
        cleared s,
      )))

  cleared_others :
      (s : S) (j : String) (later : Instant)
      → str_eq (failure_key p identity) j ≡ false
      → str_eq (strike_key p identity) j ≡ false
      → store.load (cleared s) later j ≡ store.load s later j
  cleared_others s j later a b =
      delete-others _ (strike_key p identity) j later b
      ∙ delete-others s (failure_key p identity) j later a

  pub cleared-Shows : (s : S) (a : Account) → Shows s a → Shows (cleared s) (clear t a)
  cleared-Shows s a h = record {
    failed = λ later.
        delete-others _ (strike_key p identity) (failure_key p identity) later
          (clash-eq "strike:" "fail:" hash hash refl)
        ∙ delete-same s (failure_key p identity) later;
    strikes = λ later. delete-same _ (strike_key p identity) later;
    lock = λ later.
        locked_same p laws store is t s (cleared s) later identity (
          cleared_others s (lock_key p identity) later (clash-eq "fail:" "lock:" hash hash refl)
            (clash-eq "strike:" "lock:" hash hash refl))
        ∙ h.lock later;
    readable =
        IsReadable-after p laws store is t (client_ip p t r) s (cleared s)
          (λ later.
            cleared_others s (stuffing_key p (client_ip p t r)) later
              (clash-eq "fail:" "stuff:" hash client refl)
              (clash-eq "strike:" "stuff:" hash client refl))
          h.readable;
  }
