-- ===== src/Session/BruteForce/Racing/Lost.antt =====
-- session/bruteforce.go: failures that are counted at the same time.
use text.Mathlib.Text.{◌==◌ as str_eq}
use security_go.Shared.{
  ℕ, zero, suc, ◌+◌, ◌≡◌, refl, subst, ◌∙◌, false, String, List, [], ◌∷◌, Option, none, some, ok,
  ltb, leb, if◌then◌else◌, arith,
}
use security_go.Shared.Keys.{clash-eq}
use security_go.Shared.Time.{Instant}
use security_go.Session.{Store, IsStore, Request, Packages, Laws}
use security_go.Session.Tracker.Running.{bind-ok}
use security_go.Session.Tracker.{Tracker, ◌>>=◌, hash_token, lock_key, failure_key, client_ip}
use security_go.Session.Lockout.{failures, failure_window, locked}
use security_go.Session.BruteForce.{counter_of, locked_until, count_failure}
use security_go.Session.BruteForce.Touching.{IsReadable}
use security_go.Session.BruteForce.Locking.{locked_same}
use security_go.Session.BruteForce.Steps.{Written, write_failure-Written}
use security_go.Session.BruteForce.Racing.{
  Attempt, ends, then_do, finish, copies, Turns, locked_calls, count_failure_calls,
  record_failure_calls,
}
use security_go.Session.BruteForce.Racing.Atomic.{
  IsRun, bind-IsRun, locked_until-IsRun, count_failure-IsRun,
}
use security_go.Session.BruteForce.Racing.Orders.{
  Turns-trans, Turns-other, Turns-finish, Turns-loads,
}

module _ {S : Type 0} (p : Packages) (laws : Laws p) (store : Store S) (is : IsStore store)
    (t : Tracker) (now : Instant) (identity : String) (r : Option Request) where
  -- An attempt after its first call, which read the counter `m`.
  unfoldable rest_calls : ℕ → Attempt (Unit {0})
  unfolding then_do locked_calls count_failure_calls
  rest_calls m =
      then_do (locked_calls p store t now identity)
        (count_failure_calls p store t now identity r (m + 1))

  rest_calls-IsRun :
      (m : ℕ)
      → IsRun p store t now
          (locked_until p store t now identity >>= count_failure p store t now identity r (m + 1))
          (rest_calls m)
  unfolding rest_calls
  rest_calls-IsRun m =
      bind-IsRun p store t now (locked_until p store t now identity)
        (locked_calls p store t now identity) _ _ (locked_until-IsRun p store t now identity)
        (count_failure-IsRun p store t now identity r (m + 1))

  -- No lockout, and a list that can be read.
  record Open (s : S) : Type 0 where
    no_lock : locked p store now identity s ≡ ok none
    readable : IsReadable p laws store is t (client_ip p t r) s

  -- The failure after the counter `m` is written.
  record Counted (m : ℕ) (s : S) : Type 0 where
    still_open : Open s
    counter : store.load s now (failure_key p identity) ≡ ok (some (p.itoa (m + 1)))

  live : (x : String) → ok (if ltb (now + failure_window t) now then none else some x) ≡ ok (some x)
  live x = ground arith

  Written-Counted :
      (m : ℕ) (s s' : S)
      → Open s
      → Written p laws store is t identity (m + 1) now (client_ip p t r) s s'
      → Counted m s'
  Written-Counted m s s' o w = record {
    still_open = record {
      no_lock =
          locked_same p laws store is t s s' now identity (
            w.others now (lock_key p identity) (clash-eq "fail:" "lock:" h h refl)
              (clash-eq "stuff:" "lock:" (hash_token p (client_ip p t r)) h refl))
          ∙ o.no_lock;
      readable = w.readable;
    };
    counter = w.counter now ∙ live (p.itoa (m + 1));
  }
    where
      h : String
      h = hash_token p identity

  -- Below the threshold, the rest of an attempt writes the counter that it read, one greater.
  rest_calls-eq :
      (m : ℕ) (s : S)
      → leb (failures t) (m + 1) ≡ false
      → Open s
      → (s' : S) × (finish store now (rest_calls m) s ≡ (ok tt, s')) × Counted m s'
  unfolding count_failure IsRun locked_until
  rest_calls-eq m s below o =
      let (s', written, w) =
        write_failure-Written p laws store is t s now identity r (m + 1) o.readable in
      (
        s',
        rest_calls-IsRun m s
            ∙ bind-ok (locked_until p store t now identity)
                (count_failure p store t now identity r (m + 1)) s (λ i. (o.no_lock i, s))
            ∙ rw (below, count_failure) written,
        Written-Counted m s s' o w,
      )

  rest_first :
      (m : ℕ) (qs : List (Attempt (Unit {0}))) (s : S)
      → leb (failures t) (m + 1) ≡ false
      → Open s
      → (s' : S) × Turns store now (rest_calls m ∷ qs) s (ends (ok tt) ∷ qs) s' × Counted m s'
  rest_first m qs s below o =
      let (s', e, c) = rest_calls-eq m s below o in
      (
        s',
        subst (λ x. Turns store now (rest_calls m ∷ qs) s (ends x.0 ∷ qs) x.1) e
            (Turns-finish store now (rest_calls m) qs s),
        c,
      )

  rest_all :
      (m count : ℕ) (s : S)
      → leb (failures t) (m + 1) ≡ false
      → Open s
      → (s' : S) × Turns store now
          (copies (suc count) (rest_calls m))
          s
          (copies (suc count) (ends (ok tt)))
          s'
        × Counted m s'
  unfolding copies
  rest_all m zero s below o = rest_first m [] s below o
  rest_all m (suc count) s below o =
      let (s', first, c) = rest_first m (copies (suc count) (rest_calls m)) s below o in
      let (s'', others, c') = rest_all m count s' below c.still_open in
      (s'', Turns-trans store now first (Turns-other store now (ends (ok tt)) others), c')

  -- However many attempts of one client fail at the same time for a named identity that is not locked,
  -- while one failure more is below the threshold, over a store that does not fail, with the client's list
  -- readable: there is an order of their calls in which they all end without an error, the counter is
  -- one greater than before, and the identity is not locked.
  pub record_failure_calls-lost :
      (count : ℕ) (s : S) (value : Option String)
      → str_eq identity "" ≡ false
      → store.load s now (failure_key p identity) ≡ ok value
      → locked p store now identity s ≡ ok none
      → IsReadable p laws store is t (client_ip p t r) s
      → leb (failures t) (counter_of p store t now value + 1) ≡ false
      → (s' : S) × Turns store now
          (copies (suc count) (record_failure_calls p store t now identity r))
          s
          (copies (suc count) (ends (ok tt)))
          s'
        × (store.load s' now (failure_key p identity)
            ≡ ok (some (p.itoa (counter_of p store t now value + 1))))
        × (locked p store now identity s' ≡ ok none)
  unfolding record_failure_calls then_do rest_calls
  record_failure_calls-lost count s value named read lock readable below =
      let m = counter_of p store t now value in
      let (s', turns, c) =
        rest_all m count s below (record { no_lock = lock; readable = readable }) in
      (
        s',
        rw named (
            Turns-trans store now (Turns-loads store now (suc count) (failure_key p identity) _ s)
              (rw read turns)),
        c.counter,
        c.still_open.no_lock,
      )
