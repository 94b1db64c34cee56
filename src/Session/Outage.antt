-- ===== src/Session/Outage.antt =====
-- session/bruteforce.go and session/tracker.go: what is answered while the store cannot be read.
mod Tests
use text.Mathlib.Text.{◌==◌ as str_eq}
use security_go.Shared.{
  ◌≡◌, refl, ap, ◌∙◌, Bool, true, false, String, List, Option, none, some, Fallible, ok, err, foldl,
  if◌then◌else◌, inl, inr, Bool-cases,
}
use security_go.Shared.Time.{Instant}
use security_go.Security.{Result}
use security_go.Session.{Store, Request, Packages}
use security_go.Session.Tracker.{
  Tracker, load_nets, store_error, known_nets_key, stuffing_key, client_ip,
}
use security_go.Session.Tracker.Checks.{load_session, token_of, check_token, check, observe}
use security_go.Session.Lockout.{locked, is_locked}
use security_go.Session.BruteForce.Guarding.{check_stuffing-empty}
use security_go.Session.BruteForce.{
  stuffing_count, check_login, record_failure, guard_login, retry_after, too_many, handled,
  Response, Write, write,
}

module _ {S : Type 0} (p : Packages) (store : Store S) (t : Tracker) (now : Instant) (s : S)
    (e : String) where
  -- Every load fails.
  abbrev pub IsDown : Type 0
  IsDown = (key : String) → store.load s now key ≡ err e

  locked-IsDown : IsDown → (identity : String) → locked p store now identity s ≡ err e
  unfolding locked
  locked-IsDown down identity = rw (down, locked) refl

  load_nets-IsDown : IsDown → (key : String) → load_nets p store now key s ≡ err e
  unfolding load_nets
  load_nets-IsDown down key = rw (down, load_nets) refl

  detected-store_error : (store_error t e).detected ≡ t.fail_closed
  unfolding store_error
  detected-store_error = elim (Bool-cases t.fail_closed) [
    | inl closed ↦ rw (closed, store_error) refl
    | inr through ↦ rw (through, store_error) refl
  ]

  check_login-IsDown :
      IsDown
      → (identity : String) (r : Option Request) → str_eq identity "" ≡ false
      → check_login p store t now identity r s ≡ store_error t e
  unfolding check_login
  check_login-IsDown down identity r named = rw (named, locked-IsDown down identity) refl

  check_login-closed :
      IsDown
      → (identity : String) (r : Option Request) → str_eq identity "" ≡ false
      → (check_login p store t now identity r s).detected ≡ t.fail_closed
  check_login-closed down identity r named =
      ap (λ x. x.detected) (check_login-IsDown down identity r named) ∙ detected-store_error

  check-IsDown :
      IsDown
      → (r : Option Request) → str_eq (token_of p store t now r) "" ≡ false
      → check p store t now r s ≡ (store_error t e, s)
  unfolding check check_token load_session
  check-IsDown down r named = rw (named, down, check_token, load_session) refl

  stuffing_count-IsDown : IsDown → (ip : String) → stuffing_count p store t now ip s ≡ 0
  unfolding stuffing_count
  stuffing_count-IsDown down ip =
      rw (load_nets-IsDown down (stuffing_key p ip), stuffing_count) refl

  -- Without an identity there is nothing that FailClosed applies to: the client's list counts as empty.
  check_login-anonymous :
      IsDown → (r : Option Request) → (check_login p store t now "" r s).detected ≡ false
  unfolding check_login
  check_login-anonymous down r =
      ap (λ x. x.detected)
        (check_stuffing-empty p store t now (client_ip p t r) s
          (stuffing_count-IsDown down (client_ip p t r)))

  observe-IsDown :
      IsDown
      → (user : String) (r : Option Request) → str_eq user "" ≡ false
      → observe p store t now user r s ≡ (store_error t e, s)
  unfolding observe
  observe-IsDown down user r named = rw (named, load_nets-IsDown down (known_nets_key p user)) refl

  record_failure-IsDown :
      IsDown
      → (identity : String) (r : Option Request) → str_eq identity "" ≡ false
      → record_failure p store t now identity r s ≡ (err e, s)
  unfolding record_failure
  record_failure-IsDown down identity r named = rw (named, down) refl

  is_locked-IsDown : IsDown → (identity : String) → is_locked p store now identity s ≡ none
  unfolding is_locked
  is_locked-IsDown down identity = elim (Bool-cases (str_eq identity "")) [
    | inl empty ↦ rw (empty, is_locked) refl
    | inr named ↦ rw (named, is_locked, locked-IsDown down identity) refl
  ]

  guard_login-IsDown :
      IsDown
      → (next : S → List Write × S) (identity : Option Request → String) (r : Option Request)
      → str_eq (identity r) "" ≡ false
      → (guard_login p store t now next (some identity) r s).0
        ≡ (if t.fail_closed then too_many none else handled (foldl write 0 (next s).0))
  unfolding guard_login retry_after
  guard_login-IsDown down next identity r named = elim (Bool-cases t.fail_closed) [
    | inl closed ↦
        rw
          (
            check_login-closed down (identity r) r named,
            closed,
            is_locked-IsDown down (identity r),
            retry_after,
          )
          refl
    | inr through ↦ rw (check_login-closed down (identity r) r named, through) refl
  ]

  -- While every load fails, for a named identity, token and user: CheckLogin, Check and Observe report
  -- exactly if the tracker fails closed, and the latter two leave the store alone; GuardLogin then
  -- answers 429 without a Retry-After header, and otherwise lets the wrapped handler answer; IsLocked
  -- reads as unlocked; RecordFailure returns the store's error and counts nothing. CheckLogin lets a
  -- login without an identity through, also if the tracker fails closed.
  pub fail_closed-IsDown :
      IsDown
      → (user : String) (identity : Option Request → String) (r : Option Request)
        (next : S → List Write × S)
      → str_eq (identity r) "" ≡ false
      → str_eq (token_of p store t now r) "" ≡ false
      → str_eq user "" ≡ false
      → ((check_login p store t now (identity r) r s).detected ≡ t.fail_closed)
        × ((check p store t now r s).0.detected ≡ t.fail_closed)
        × ((check p store t now r s).1 ≡ s)
        × ((observe p store t now user r s).0.detected ≡ t.fail_closed)
        × ((observe p store t now user r s).1 ≡ s)
        × ((guard_login p store t now next (some identity) r s).0
            ≡ (if t.fail_closed then too_many none else handled (foldl write 0 (next s).0)))
        × (is_locked p store now (identity r) s ≡ none)
        × (record_failure p store t now (identity r) r s ≡ (err e, s))
        × ((check_login p store t now "" r s).detected ≡ false)
  fail_closed-IsDown down user identity r next id_some token_some user_some = (
    check_login-closed down (identity r) r id_some,
    ap (λ x. x.0.detected) (check-IsDown down r token_some) ∙ detected-store_error,
    ap (λ x. x.1) (check-IsDown down r token_some),
    ap (λ x. x.0.detected) (observe-IsDown down user r user_some) ∙ detected-store_error,
    ap (λ x. x.1) (observe-IsDown down user r user_some),
    guard_login-IsDown down next identity r id_some,
    is_locked-IsDown down (identity r),
    record_failure-IsDown down (identity r) r id_some,
    check_login-anonymous down r,
  )
