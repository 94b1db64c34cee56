-- ===== src/Session/Lockout/Forgetting.antt =====
-- session/lockout.go: `ClearFailures` stores nothing.
use text.Mathlib.Text.{◌==◌}
use security_go.Shared.{String, Bool-cases, inl, inr}
use security_go.Shared.Time.{Instant}
use security_go.Session.{Store, IsStore, Packages}
use security_go.Session.Tracker.{failure_key, strike_key}
use security_go.Session.Lockout.{clear_failures, delete_key}
use security_go.Session.Tracker.Forgetting.{Forgets, bind-Forgets, delete-Forgets}

pub clear_failures-Forgets :
    {S : Type 0} (p : Packages) (store : Store S) (is : IsStore store) (end : Instant)
    (identity : String)
    → Forgets store end (clear_failures p store identity)
unfolding clear_failures delete_key
clear_failures-Forgets p store is end identity s g = elim (Bool-cases (identity == "")) [
  | inl unnamed ↦ rw (unnamed, clear_failures) g
  | inr named ↦
      rw (named, clear_failures)
        (bind-Forgets store end (delete_key p store (failure_key p identity))
          (λ _. delete_key p store (strike_key p identity))
          (delete-Forgets store is end (failure_key p identity))
          (λ _. delete-Forgets store is end (strike_key p identity)) s g)
]
