-- ===== src/Session/BruteForce/Sequence.antt =====
-- session/bruteforce.go: as many failures in a row as the setting says lock an identity out.
use text.Mathlib.Text.{◌==◌ as str_eq}
use security_go.Shared.{
  ℕ, suc, ◌+◌, ◌≤◌, ◌≡◌, refl, subst, ◌∙◌, true, false, ◌&&◌, String, List, [], ◌∷◌, Option, none,
  some, ok, ltb, leb, if◌then◌else◌, arith, length,
}
use security_go.Shared.Keys.{clash-eq}
use security_go.Shared.Time.{Instant}
use security_go.Session.{Store, IsStore, Request, Packages, Laws}
use security_go.Session.Tracker.{Tracker, hash_token, lock_key, failure_key, strike_key, client_ip}
use security_go.Session.Lockout.{failures, failure_window, lock_for, locked, lock_end}
use security_go.Session.BruteForce.{counter_of, record_failure}
use security_go.Session.BruteForce.Touching.{IsReadable}
use security_go.Session.BruteForce.Steps.{Written}
use security_go.Session.BruteForce.Locking.{
  whole, lock_at, record_failure-below, record_failure-locks,
}

module _ {S : Type 0} (p : Packages) (laws : Laws p) (store : Store S) (is : IsStore store)
    (t : Tracker) (identity : String) (r : Option Request) where
  -- The store after failures at the given times.
  pub fail_at : List Instant → S → S
  fail_at [] s = s
  fail_at (now ∷ times) s = fail_at times (record_failure p store t now identity r s).1

  -- Each failure comes before the counter of the one before it is gone.
  abbrev pub InWindow : Instant → List Instant → Type 0
  InWindow t0 [] = Unit
  InWindow t0 (now ∷ times) = (now ≤ t0 + failure_window t) × InWindow now times

  abbrev pub last_of : Instant → List Instant → Instant
  last_of now [] = now
  last_of now (later ∷ times) = last_of later times

  -- `n` failures are counted, up to the moment `until`, and no lockout was ever set.
  pub record Counting (n : ℕ) (until : Instant) (s : S) : Type 0 where
    pub counted :
        (now : Instant)
        → now ≤ until
        → (value : Option String) × (store.load s now (failure_key p identity) ≡ ok value)
          × (counter_of p store t now value ≡ n)
    pub no_lock : (now : Instant) → store.load s now (lock_key p identity) ≡ ok none
    pub no_strike : (now : Instant) → store.load s now (strike_key p identity) ≡ ok none
    pub readable : IsReadable p laws store is t (client_ip p t r) s

  unlocked :
      (n : ℕ) (until now : Instant) (s : S)
      → Counting n until s
      → locked p store now identity s ≡ ok none
  unfolding locked lock_end
  unlocked n until now s c = rw (c.no_lock now, locked) refl

  Written-Counting :
      (n : ℕ) (until now : Instant) (s s' : S)
      → Counting n until s
      → Written p laws store is t identity (suc n) now (client_ip p t r) s s'
      → Counting (suc n) (now + failure_window t) s'
  unfolding counter_of
  Written-Counting n until now s s' c w = record {
    counted =
        λ later h. (some (p.itoa (suc n)), w.counter later ∙ live later h, laws.atoi-itoa (suc n));
    no_lock = λ later.
        w.others later (lock_key p identity) (clash-eq "fail:" "lock:" h h refl)
          (clash-eq "stuff:" "lock:" (hash_token p (client_ip p t r)) h refl)
        ∙ c.no_lock later;
    no_strike = λ later.
        w.others later (strike_key p identity) (clash-eq "fail:" "strike:" h h refl)
          (clash-eq "stuff:" "strike:" (hash_token p (client_ip p t r)) h refl)
        ∙ c.no_strike later;
    readable = w.readable;
  }
    where
      h : String
      h = hash_token p identity

      live :
          (later : Instant)
          → later ≤ now + failure_window t
          → ok (if ltb (now + failure_window t) later then none else some (p.itoa (suc n)))
            ≡ ok (some (p.itoa (suc n)))
      live later h = ground arith

  below :
      (n m more : ℕ)
      → m ≡ n
      → n + suc (suc more) ≡ failures t
      → (leb (failures t) (m + 1) && true) ≡ false
  below n m more e k = ground arith

  one_more : (n m : ℕ) → m ≡ n → m + 1 ≡ suc n
  one_more n m e = omega arith

  -- Failures that come within the window of one another, as many as the threshold in all, end in a
  -- lockout of the first length, to the whole second below: the identity reads as locked up to that
  -- end, and not from it on.
  pub fail_at-locks :
      (n : ℕ) (until now : Instant) (times : List Instant) (s : S)
      → str_eq identity "" ≡ false
      → Counting n until s
      → now ≤ until
      → InWindow now times
      → n + length (now ∷ times) ≡ failures t
      → (later : Instant)
      → locked p store later identity (fail_at (now ∷ times) s)
        ≡ ok (lock_at (whole (last_of now times + lock_for t 1)) later)
  unfolding fail_at counter_of
  fail_at-locks n until now [] s named c h w k later =
      let (value, read, count) = c.counted now h in
      let (s', eq, locks) =
        record_failure-locks p laws store is t s now identity r value none named read
          (c.no_strike now) (unlocked n until now s c) c.readable (omega (arith, count)) in
      rw (eq, fail_at) (locks later)
  fail_at-locks n until now (next ∷ times) s named c h w k later =
      let (value, read, count) = c.counted now h in
      let (s', eq, written) =
        record_failure-below p laws store is t s now identity r value none named read
          (unlocked n until now s c) c.readable (below n _ (length times) count k) in
      let next_count =
        subst (λ m. Written p laws store is t identity m now (client_ip p t r) s s')
          (one_more n _ count) written in
      rw (eq, fail_at)
        (fail_at-locks (suc n) (now + failure_window t) next times s' named
          (Written-Counting n until now s s' c next_count) w.0 w.1 (omega arith) later)
