-- ===== src/Session/BruteForce/Forgetting.antt =====
-- session/bruteforce.go: when all that `RecordFailure` and `GuardLogin` store is gone.
use text.Mathlib.Text.{◌==◌ as str_eq}
use security_go.Shared.{
  ℕ, ◌+◌, ◌≤◌, ◌==◌, ◌&&◌, not, String, List, Option, arith, Bool-cases, inl, inr, leb, ltb, foldl,
}
use security_go.Shared.Time.{Instant, Duration}
use security_go.Session.{Store, IsStore, Packages, Request}
use security_go.Session.Tracker.{
  Tracker, return, ◌>>◌, ◌>>=◌, when, strike_key, lock_key, stuffing_key, failure_key, client_ip,
  hash_token,
}
use security_go.Session.Tracker.Forgetting.{
  Forgets, IsForgotten, bind-Forgets, when-Forgets, save-Forgets, save_nets-Forgets,
}
use security_go.Session.Lockout.{failures, failure_window, max_lockout, backoff_window, lock_for}
use security_go.Session.Lockout.Backoff.{lock_for-doubles}
use security_go.Session.Lockout.Forgetting.{clear_failures-Forgets}
use security_go.Session.BruteForce.{
  is_some, load_key, save_key, locked_until, counter_of, bump, lock_out, load_ids, contains, add_id,
  remember_id, record_stuffing, write_failure, count_failure, record_failure, Write, write,
  check_login, after_status, identity_of, guard_login,
}

module _ {S : Type 0} (p : Packages) (store : Store S) (is : IsStore store) (t : Tracker)
    (end now : Instant) (lockouts : now + max_lockout t ≤ end)
    (strikes : now + backoff_window t ≤ end) (windows : now + failure_window t ≤ end) where
  bump-Forgets :
      (key : String) (ttl : Duration)
      → now + ttl ≤ end
      → Forgets store end (bump p store t now key ttl)
  unfolding bump load_key save_key
  bump-Forgets key ttl h =
      bind-Forgets store end (load_key p store t now key)
        (λ value.
          save_key p store t now key (p.itoa (counter_of p store t now value + 1)) ttl
          >> return (counter_of p store t now value + 1))
        (λ s g. g)
        (λ value.
          let n = counter_of p store t now value + 1 in
          bind-Forgets store end (save_key p store t now key (p.itoa n) ttl) (λ _. return n)
            (save-Forgets store is end now key (p.itoa n) ttl h) (λ _ s g. g))

  lock_out-Forgets : (identity : String) → Forgets store end (lock_out p store t now identity)
  unfolding lock_out save_key
  lock_out-Forgets identity =
      bind-Forgets store end (bump p store t now (strike_key p identity) (backoff_window t))
        (λ n.
          save_key p store t now (lock_key p identity) (p.format_time (now + lock_for t n))
            (lock_for t n))
        (bump-Forgets (strike_key p identity) (backoff_window t) strikes)
        (λ n.
          save-Forgets store is end now (lock_key p identity) (p.format_time (now + lock_for t n))
            (lock_for t n) (omega (arith, (lock_for-doubles t n).0)))

  remember_id-Forgets :
      (key h : String) (ids : List String) → Forgets store end (remember_id p store t now key h ids)
  unfolding remember_id
  remember_id-Forgets key h ids s g = elim (Bool-cases (contains h ids)) [
    | inl old ↦ rw (old, remember_id) g
    | inr new ↦
        rw (new, remember_id)
          (save_nets-Forgets store is p end now key (add_id p store t now h ids) (failure_window t)
            windows s g)
  ]

  record_stuffing-Forgets :
      (identity ip : String) → Forgets store end (record_stuffing p store t now identity ip)
  unfolding record_stuffing load_ids
  record_stuffing-Forgets identity ip s g = elim (Bool-cases (str_eq ip "")) [
    | inl unnamed ↦ rw (unnamed, record_stuffing) g
    | inr named ↦
        rw (named, record_stuffing)
          (bind-Forgets store end (load_ids p store t now (stuffing_key p ip))
            (remember_id p store t now (stuffing_key p ip) (hash_token p identity)) (λ s g. g)
            (remember_id-Forgets (stuffing_key p ip) (hash_token p identity)) s g)
  ]

  count_failure-Forgets :
      (identity : String) (r : Option Request) (n : ℕ) (until : Option Instant)
      → Forgets store end (count_failure p store t now identity r n until)
  unfolding count_failure write_failure save_key
  count_failure-Forgets identity r n until =
      let crosses = leb (failures t) n && not (is_some until) in
      bind-Forgets store end (when crosses (lock_out p store t now identity))
        (λ _. write_failure p store t now identity r n)
        (when-Forgets store end crosses (lock_out p store t now identity)
          (lock_out-Forgets identity))
        (λ _.
          bind-Forgets store end (record_stuffing p store t now identity (client_ip p t r))
            (λ _. save_key p store t now (failure_key p identity) (p.itoa n) (failure_window t))
            (record_stuffing-Forgets identity (client_ip p t r))
            (λ _.
              save-Forgets store is end now (failure_key p identity) (p.itoa n) (failure_window t)
                windows))

  pub record_failure-Forgets :
      (identity : String) (r : Option Request)
      → Forgets store end (record_failure p store t now identity r)
  unfolding record_failure load_key locked_until
  record_failure-Forgets identity r s g = elim (Bool-cases (str_eq identity "")) [
    | inl unnamed ↦ rw (unnamed, record_failure) g
    | inr named ↦
        rw (named, record_failure)
          (bind-Forgets store end (load_key p store t now (failure_key p identity))
            (λ value.
              locked_until p store t now identity
              >>= count_failure p store t now identity r (counter_of p store t now value + 1))
            (λ s g. g)
            (λ value.
              let n = counter_of p store t now value + 1 in
              bind-Forgets store end (locked_until p store t now identity)
                (count_failure p store t now identity r n) (λ s g. g)
                (count_failure-Forgets identity r n))
            s g)
  ]

  after_status-Forgets :
      (status : ℕ) (id : String) (r : Option Request) (s : S)
      → IsForgotten store end s
      → IsForgotten store end (after_status p store t now status id r s)
  unfolding after_status
  after_status-Forgets status id r s g = elim (Bool-cases (status == 401)) [
    | inl refused ↦ rw (refused, after_status) (record_failure-Forgets id r s g)
    | inr other ↦ elim (Bool-cases (leb 200 status && ltb status 300)) [
      | inl served ↦ rw (other, served, after_status) (clear_failures-Forgets p store is end id s g)
      | inr failed ↦ rw (other, failed, after_status) g
    ]
  ]

  -- The wrapped handler forgets too.
  pub guard_login-Forgets :
      (next : S → List Write × S) (identity : Option (Option Request → String)) (r : Option Request)
      → Forgets store end next
      → Forgets store end (guard_login p store t now next identity r)
  unfolding guard_login
  guard_login-Forgets next identity r h s g =
      let id = identity_of p store t now identity r in
      elim (Bool-cases (check_login p store t now id r s).detected) [
        | inl refused ↦ rw (refused, guard_login) g
        | inr served ↦
            rw (served, guard_login)
              (after_status-Forgets (foldl write 0 (next s).0) id r (next s).1 (h s g))
      ]
