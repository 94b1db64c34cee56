-- ===== src/Session/Release/Unlocking.antt =====
-- session/bruteforce.go: no lockout lasts for ever.
use text.Mathlib.Text.{◌==◌ as str_eq}
use security_go.Shared.{
  ◌+◌, ◌≤◌, ◌<◌, ◌≡◌, refl, String, List, [], ◌∷◌, Option, arith, Bool-cases, inl, inr, All,
}
use security_go.Shared.Time.{Instant}
use security_go.Security.{clean}
use security_go.Session.{Store, IsStore, Packages, Request}
use security_go.Session.Tracker.{
  Tracker, tracker_name, lock_key, stuffing_key, client_ip, load_nets,
}
use security_go.Session.Tracker.Forgetting.{IsForgotten}
use security_go.Session.Tracker.Checks.Forgetting.{
  issue-Forgets, revoke-Forgets, check-Forgets, observe-Forgets,
}
use security_go.Session.Lockout.{locked, lock_end}
use security_go.Session.Lockout.Forgetting.{clear_failures-Forgets}
use security_go.Session.BruteForce.Guarding.{check_stuffing-empty}
use security_go.Session.BruteForce.{check_login, check_stuffing, stuffing_count}
use security_go.Session.BruteForce.Forgetting.{record_failure-Forgets, guard_login-Forgets}
use security_go.Session.Release.{
  Call, records_failure, clears_failures, guards_login, issues, revokes, checks, observes, longest,
  after_call, after_calls,
}

module _ {S : Type 0} (p : Packages) (store : Store S) (is : IsStore store) (t : Tracker) where
  -- The calls come early enough for what they store to be gone at the end.
  abbrev pub IsOver : Instant → List (Instant × Call) → Type 0
  IsOver end = All (λ c. c.0 + longest t ≤ end)

  after_call-IsForgotten :
      (end now : Instant) (c : Call) (s : S)
      → now + longest t ≤ end
      → IsForgotten store end s
      → IsForgotten store end (after_call p store t now c s)
  unfolding after_call
  after_call-IsForgotten end now (records_failure identity r) s h g =
      record_failure-Forgets p store is t end now (omega arith) (omega arith) (omega arith) identity
        r s g
  after_call-IsForgotten end now (clears_failures identity) s h g =
      clear_failures-Forgets p store is end identity s g
  after_call-IsForgotten end now (guards_login identity r writes) s h g =
      guard_login-Forgets p store is t end now (omega arith) (omega arith) (omega arith)
        (λ s'. (writes, s')) identity r (λ s' g'. g') s g
  after_call-IsForgotten end now (issues token r) s h g =
      issue-Forgets p store is t end now (omega arith) (omega arith) token r s g
  after_call-IsForgotten end now (revokes token) s h g =
      revoke-Forgets p store is t end now (omega arith) (omega arith) token s g
  after_call-IsForgotten end now (checks r) s h g =
      check-Forgets p store is t end now (omega arith) (omega arith) r s g
  after_call-IsForgotten end now (observes user r) s h g =
      observe-Forgets p store is t end now (omega arith) (omega arith) user r s g

  after_calls-IsForgotten :
      (end : Instant) (calls : List (Instant × Call)) (s : S)
      → IsOver end calls
      → IsForgotten store end s
      → IsForgotten store end (after_calls p store t calls s)
  unfolding after_calls
  after_calls-IsForgotten end [] s h g = g
  after_calls-IsForgotten end ((now, c) ∷ calls) s (first, h) g =
      after_calls-IsForgotten end calls (after_call p store t now c s) h
        (after_call-IsForgotten end now c s first g)

  stuffing_count-forgotten :
      (end later : Instant) (ip : String) (s : S)
      → IsForgotten store end s
      → end < later
      → stuffing_count p store t later ip s ≡ 0
  unfolding stuffing_count load_nets
  stuffing_count-forgotten end later ip s g h =
      rw (g later h (stuffing_key p ip), load_nets, stuffing_count) refl

  check_stuffing-forgotten :
      (end later : Instant) (ip : String) (s : S)
      → IsForgotten store end s
      → end < later
      → check_stuffing p store t later ip s ≡ clean tracker_name
  check_stuffing-forgotten end later ip s g h =
      check_stuffing-empty p store t later ip s (stuffing_count-forgotten end later ip s g h)

  check_login-forgotten :
      (end later : Instant) (identity : String) (r : Option Request) (s : S)
      → IsForgotten store end s
      → end < later
      → check_login p store t later identity r s ≡ clean tracker_name
  unfolding check_login locked lock_end
  check_login-forgotten end later identity r s g h =
      let free = check_stuffing-forgotten end later (client_ip p t r) s g h in
      elim (Bool-cases (str_eq identity "")) [
        | inl unnamed ↦ rw (unnamed, check_login) free
        | inr named ↦ rw (named, g later h (lock_key p identity), locked, check_login) free
      ]

  -- No lockout lasts for ever: whatever calls were made of the tracker, by whatever clients, in whatever
  -- order, once the longest of the tracker's times has passed since each of them, `CheckLogin` refuses
  -- nobody. At the beginning nothing is stored that lasts longer; the store does not fail, and wrapped
  -- handlers leave it alone.
  pub check_login-after_calls :
      (end later : Instant) (calls : List (Instant × Call)) (s : S) (identity : String)
      (r : Option Request)
      → IsForgotten store end s
      → IsOver end calls
      → end < later
      → check_login p store t later identity r (after_calls p store t calls s) ≡ clean tracker_name
  check_login-after_calls end later calls s identity r g h over =
      check_login-forgotten end later identity r (after_calls p store t calls s)
        (after_calls-IsForgotten end calls s h g) over
