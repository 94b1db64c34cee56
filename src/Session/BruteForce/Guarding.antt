-- ===== src/Session/BruteForce/Guarding.antt =====
-- session/bruteforce.go: what `CheckLogin` and `GuardLogin` answer.
use text.Mathlib.Text.{◌==◌ as str_eq}
use security_go.Shared.{
  ◌+◌, Bool-cases, leb, ◌-◌, ◌/◌, ◌≤◌, ◌<◌, ◌≡◌, inl, inr, refl, ap, ◌∙◌, true, false, String, List,
  ◌∷◌, Option, some, ok, arith, length,
}
use security_go.Shared.Time.{Instant, second}
use security_go.Shared.Int.{positive_or-pos}
use security_go.Security.{clean}
use security_go.Session.{Store, IsStore, Request, Packages, Laws}
use security_go.Session.Tracker.{Tracker, tracker_name}
use security_go.Session.Lockout.{failures, stuffing_limit, lock_for, locked, is_locked}
use security_go.Session.BruteForce.{
  stuffing_count, check_stuffing, check_login, too_many, Write, retry_after, guard_login,
}
use security_go.Session.BruteForce.Sequence.{fail_at, InWindow, last_of, Counting, fail_at-locks}
use security_go.Session.BruteForce.Locking.{whole, lock_at}

module _ {S : Type 0} (p : Packages) (store : Store S) (t : Tracker) (now : Instant) where
  -- A client that failed against no identity is not refused.
  pub check_stuffing-empty :
      (ip : String) (s : S)
      → stuffing_count p store t now ip s ≡ 0
      → check_stuffing p store t now ip s ≡ clean tracker_name
  unfolding check_stuffing
  check_stuffing-empty ip s none_counted = elim (Bool-cases (str_eq ip "")) [
    | inl unnamed ↦ rw (unnamed, check_stuffing) refl
    | inr named ↦
        let positive : leb (stuffing_limit t) 0 ≡ false =
          ground (arith, positive_or-pos t.stuffing_limit 10 (omega arith)) in
        rw (named, none_counted, positive, check_stuffing) refl
  ]

module _ {S : Type 0} (p : Packages) (store : Store S) (t : Tracker) (now : Instant)
    (r : Option Request) where
  check_login-locked :
      (identity : String) (s : S) (until : Instant)
      → str_eq identity "" ≡ false
      → locked p store now identity s ≡ ok (some until)
      → (check_login p store t now identity r s).detected ≡ true
  unfolding check_login
  check_login-locked identity s until named lock = rw (named, lock, check_login) refl

  is_locked-locked :
      (identity : String) (s : S) (until : Instant)
      → str_eq identity "" ≡ false
      → locked p store now identity s ≡ ok (some until)
      → is_locked p store now identity s ≡ some until
  unfolding is_locked
  is_locked-locked identity s until named lock = rw (named, lock, is_locked) refl

  retry_after-left :
      (until : Instant)
      → now + second ≤ until
      → retry_after p store t now (some until) ≡ some ((until - now) / second)
  unfolding retry_after
  retry_after-left until left = ground arith

  -- An identity that is locked out gets the answer 429 with the whole seconds that are left, at least
  -- one; the wrapped handler does not run, and the store stays as it is.
  pub guard_login-locked :
      (next : S → List Write × S) (identity : Option Request → String) (s : S) (until : Instant)
      → str_eq (identity r) "" ≡ false
      → locked p store now (identity r) s ≡ ok (some until)
      → now + second ≤ until
      → guard_login p store t now next (some identity) r s
        ≡ (too_many (some ((until - now) / second)), s)
  unfolding guard_login
  guard_login-locked next identity s until named lock left = rw (
    check_login-locked (identity r) s until named lock,
    is_locked-locked (identity r) s until named lock,
    retry_after-left until left,
  )

module _ {S : Type 0} (p : Packages) (laws : Laws p) (store : Store S) (is : IsStore store)
    (t : Tracker) (identity : String) (r : Option Request) where
  lock_at-before : (until later : Instant) → later < until → lock_at until later ≡ some until
  lock_at-before until later h = ground arith

  -- The lockout at work: after as many failures in a row as the setting says, none later than the
  -- counter of the one before it lasts, `GuardLogin` answers 429 up to the second before the end of
  -- the lockout, without running the handler and without a change of the store.
  pub guard_login-fail_at :
      (until now : Instant) (times : List Instant) (s : S) (later : Instant)
      (next : S → List Write × S)
      → str_eq identity "" ≡ false
      → Counting p laws store is t identity r 0 until s
      → now ≤ until
      → InWindow p laws store is t identity r now times
      → length (now ∷ times) ≡ failures t
      → let end = whole (last_of p laws store is t identity r now times + lock_for t 1) in
        let s' = fail_at p laws store is t identity r (now ∷ times) s in
        later + second ≤ end
        → guard_login p store t later next (some (λ _. identity)) r s'
          ≡ (too_many (some ((end - later) / second)), s')
  guard_login-fail_at until now times s later next named c h w k left =
      let end = whole (last_of p laws store is t identity r now times + lock_for t 1) in
      guard_login-locked p store t later r next (λ _. identity)
        (fail_at p laws store is t identity r (now ∷ times) s) end named
        (fail_at-locks p laws store is t identity r 0 until now times s named c h w
            (omega (arith, k)) later
          ∙ ap ok (lock_at-before end later (omega arith)))
        left
