-- ===== src/Session/Tracker/Checks/Forgetting.antt =====
-- session/tracker.go: when all that `Issue`, `Revoke`, `Check` and `Observe` store is gone.
use mathlib.Core.List.{◌++◌ as append}
use text.Mathlib.Text.{◌==◌}
use security_go.Shared.{
  ◌+◌, ◌≤◌, String, List, [], ◌∷◌, Option, none, some, Fallible, ok, err, Bool-cases,
  Fallible-cases, Option-cases, inl, inr,
}
use security_go.Shared.Time.{Instant}
use security_go.Security.{Result, clean}
use security_go.Session.{Store, IsStore, Session, Packages, Request}
use security_go.Session.Tracker.{
  Tracker, tracker_name, ttl, known_nets, known_net_ttl, session_key, known_nets_key, load_nets,
  save_nets,
}
use security_go.Session.Tracker.Forgetting.{
  Forgets, IsForgotten, save-Forgets, delete-Forgets, save_nets-Forgets,
}
use security_go.Session.Lockout.{locked}
use security_go.Session.BruteForce.{contains, last}
use security_go.Session.Tracker.Checks.{
  new_session, mismatch, load_session, save_session, issue, revoke, after_save, verify, check_found,
  token_of, check_token, check, here, unseen, observe_in, observe,
}

module _ {S : Type 0} (p : Packages) (store : Store S) (is : IsStore store) (t : Tracker)
    (end now : Instant) (sessions : now + ttl t ≤ end)
    (networks : now + known_net_ttl t ≤ end) where
  save_session-Forgets :
      (token : String) (x : Session) → Forgets store end (save_session p store t now token x)
  unfolding save_session
  save_session-Forgets token x s g = elim (Option-cases (p.marshal_session x)) [
    | inl bad ↦ rw (bad, save_session) g
    | inr (value, e) ↦
        rw (e, save_session)
          (save-Forgets store is end now (session_key p token) value (ttl t) sessions s g)
  ]

  pub issue-Forgets :
      (token : String) (r : Option Request) → Forgets store end (issue p store t now token r)
  unfolding issue
  issue-Forgets token r s g = elim (Bool-cases (token == "")) [
    | inl unnamed ↦ rw (unnamed, issue) g
    | inr named ↦ rw (named, issue) (save_session-Forgets token (new_session p t now r) s g)
  ]

  pub revoke-Forgets : (token : String) → Forgets store end (revoke p store t now token)
  unfolding revoke
  revoke-Forgets token = delete-Forgets store is end (session_key p token)

  after_save-Forgets :
      (r : Result) (x : Fallible (Unit {0}) × S)
      → IsForgotten store end x.1
      → IsForgotten store end (after_save p store t now r x).1
  unfolding after_save
  after_save-Forgets r (ok _, s) g = g
  after_save-Forgets r (err e, s) g = g

  verify-Forgets :
      (r : Option Request) (token : String) (x : Session)
      → Forgets store end (verify p store t now r token x)
  unfolding verify
  verify-Forgets r token x s g = elim (Option-cases (mismatch p t x r)) [
    | inl same ↦
        let y = record x { last_seen = now } in
        rw (same, verify)
          (after_save-Forgets (clean tracker_name) (save_session p store t now token y s)
            (save_session-Forgets token y s g))
    | inr (d, e) ↦ rw (e, verify) g
  ]

  check_found-Forgets :
      (r : Option Request) (token : String) (until : Option Instant) (found : Option Session)
      → Forgets store end (check_found p store t now r token until found)
  unfolding check_found
  check_found-Forgets r token (some until) found = λ s g. g
  check_found-Forgets r token none none = λ s g. g
  check_found-Forgets r token none (some x) = verify-Forgets r token x

  check_token-Forgets :
      (r : Option Request) (token : String) → Forgets store end (check_token p store t now r token)
  unfolding check_token
  check_token-Forgets r token s g = elim (Fallible-cases (load_session p store t now token s)) [
    | inl (e, bad) ↦ rw (bad, check_token) g
    | inr (found, read) ↦ elim (Fallible-cases (locked p store now token s)) [
      | inl (e, bad) ↦ rw (read, bad, check_token) g
      | inr (until, lock) ↦
          rw (read, lock, check_token) (check_found-Forgets r token until found s g)
    ]
  ]

  pub check-Forgets : (r : Option Request) → Forgets store end (check p store t now r)
  unfolding check
  check-Forgets r s g = elim (Bool-cases (token_of p store t now r == "")) [
    | inl absent ↦ rw (absent, check) g
    | inr given ↦ rw (given, check) (check_token-Forgets r (token_of p store t now r) s g)
  ]

  observe_in-Forgets :
      (user : String) (r : Option Request) (nets : List String)
      → Forgets store end (observe_in p store t now user r nets)
  unfolding observe_in
  observe_in-Forgets user r nets s g = elim (Bool-cases (contains (here p store t now r) nets)) [
    | inl known ↦ rw (known, observe_in) g
    | inr new ↦
        let longer = last (known_nets t) (append nets (here p store t now r ∷ [])) in
        let key = known_nets_key p user in
        rw (new, observe_in)
          (after_save-Forgets (unseen p store t now r nets)
            (save_nets p store now key longer (known_net_ttl t) s)
            (save_nets-Forgets store is p end now key longer (known_net_ttl t) networks s g))
  ]

  pub observe-Forgets :
      (user : String) (r : Option Request) → Forgets store end (observe p store t now user r)
  unfolding observe
  observe-Forgets user r s g = elim (Bool-cases (user == "")) [
    | inl unnamed ↦ rw (unnamed, observe) g
    | inr named ↦ elim (Fallible-cases (load_nets p store now (known_nets_key p user) s)) [
      | inl (e, bad) ↦ rw (named, bad, observe) g
      | inr (nets, read) ↦ rw (named, read, observe) (observe_in-Forgets user r nets s g)
    ]
  ]
