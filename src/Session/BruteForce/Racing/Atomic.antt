-- ===== src/Session/BruteForce/Racing/Atomic.antt =====
-- session/bruteforce.go: the calls of an attempt, made without a break, are `RecordFailure`.
use text.Mathlib.Text.{◌==◌ as str_eq}
use security_go.Shared.{
  ℕ, ◌+◌, ◌≡◌, refl, ◌∙◌, ◌&&◌, not, Bool, true, false, String, List, Option, ok, err, leb,
  Bool-cases, Option-cases, Fallible-cases, inl, inr,
}
use security_go.Shared.Time.{Instant, Duration}
use security_go.Session.{Store, Packages, Request}
use security_go.Session.Tracker.{
  Tracker, M, ◌>>=◌, rest_of, return, when, hash_token, lock_key, failure_key, strike_key,
  stuffing_key, client_ip, load_nets, save_nets,
}
use security_go.Session.Lockout.{failures, failure_window, backoff_window, lock_for, locked}
use security_go.Session.BruteForce.{
  is_some, contains, add_id, counter_of, load_key, save_key, locked_until, load_ids, bump, lock_out,
  remember_id, record_stuffing, write_failure, count_failure, record_failure,
}
use security_go.Session.BruteForce.Racing.{
  Attempt, ends, loads, saves, then_do, load_call, save_call, when_call, bump_calls, locked_calls,
  lock_out_calls, ids_of, save_ids_calls, remember_id_calls, record_stuffing_calls,
  count_failure_calls, record_failure_calls, finish,
}

module _ {S : Type 0} (p : Packages) (store : Store S) (t : Tracker) (now : Instant) where
  finish-then_do :
      {A B : Type 0} (a : Attempt A) (f : A → Attempt B) (s : S)
      → finish store now (then_do a f) s
        ≡ rest_of (λ x. finish store now (f x)) (finish store now a s)
  unfolding finish then_do
  finish-then_do (ends (ok x)) f s = refl
  finish-then_do (ends (err e)) f s = refl
  finish-then_do (loads key next) f s = finish-then_do (next (store.load s now key)) f s
  finish-then_do (saves key value ttl next) f s =
      let r = store.save s now key value ttl in finish-then_do (next r.0) f r.1

  -- The calls are an operation that runs as a whole.
  unfoldable pub IsRun : {A : Type 0} → M S A → Attempt A → Type 0
  IsRun m a = (s : S) → finish store now a s ≡ m s

  pub bind-IsRun :
      {A B : Type 0} (m : M S A) (a : Attempt A) (f : A → M S B) (g : A → Attempt B)
      → IsRun m a
      → ((x : A) → IsRun (f x) (g x))
      → IsRun (m >>= f) (then_do a g)
  unfolding IsRun
  bind-IsRun m a f g h k s = finish-then_do a g s ∙ (λ i. rest_of (λ x s'. k x s' i) (h s i))

  load_key-IsRun : (key : String) → IsRun (load_key p store t now key) (load_call key)
  unfolding IsRun load_key finish
  load_key-IsRun key s = refl

  save_key-IsRun :
      (key value : String) (ttl : Duration)
      → IsRun (save_key p store t now key value ttl) (save_call key value ttl)
  unfolding IsRun save_key finish
  save_key-IsRun key value ttl s = refl

  return-IsRun : {A : Type 0} (x : A) → IsRun (return x) (ends (ok x))
  unfolding IsRun finish
  return-IsRun x s = refl

  when-IsRun :
      (test : Bool) (m : M S (Unit {0})) (a : Attempt (Unit {0}))
      → IsRun m a
      → IsRun (when test m) (when_call test a)
  when-IsRun true m a h = h
  when-IsRun false m a h = return-IsRun tt

  bump-IsRun :
      (key : String) (ttl : Duration)
      → IsRun (bump p store t now key ttl) (bump_calls p store t now key ttl)
  unfolding bump bump_calls
  bump-IsRun key ttl =
      bind-IsRun (load_key p store t now key) (load_call key) _ _ (load_key-IsRun key) (λ value.
        let n = counter_of p store t now value + 1 in
        bind-IsRun (save_key p store t now key (p.itoa n) ttl) (save_call key (p.itoa n) ttl)
          (λ _. return n) (λ _. ends (ok n)) (save_key-IsRun key (p.itoa n) ttl)
          (λ _. return-IsRun n))

  pub locked_until-IsRun :
      (identity : String)
      → IsRun (locked_until p store t now identity) (locked_calls p store t now identity)
  unfolding IsRun locked_until locked locked_calls finish then_do
  locked_until-IsRun identity s = elim (Fallible-cases (store.load s now (lock_key p identity))) [
    | inl (e, bad) ↦ rw (bad, locked) refl
    | inr (value, read) ↦ rw (read, locked) refl
  ]

  lock_out-IsRun :
      (identity : String)
      → IsRun (lock_out p store t now identity) (lock_out_calls p store t now identity)
  unfolding lock_out lock_out_calls
  lock_out-IsRun identity =
      bind-IsRun (bump p store t now (strike_key p identity) (backoff_window t))
        (bump_calls p store t now (strike_key p identity) (backoff_window t)) _ _
        (bump-IsRun (strike_key p identity) (backoff_window t))
        (λ strikes.
          let d = lock_for t strikes in
          save_key-IsRun (lock_key p identity) (p.format_time (now + d)) d)

  load_ids-IsRun :
      (key : String)
      → IsRun
          (load_ids p store t now key)
          (then_do (load_call key) (λ value. ends (ids_of p store t now value)))
  unfolding IsRun load_ids load_nets ids_of finish then_do
  load_ids-IsRun key s = elim (Fallible-cases (store.load s now key)) [
    | inl (e, bad) ↦ rw (bad, load_nets) refl
    | inr (value, read) ↦ elim (Option-cases value) [
      | inl absent ↦ rw (read, absent, load_nets, ids_of) refl
      | inr (x, present) ↦ elim (Option-cases (p.unmarshal_texts x)) [
        | inl bad ↦ rw (read, present, load_nets, ids_of, bad) refl
        | inr (ids, good) ↦ rw (read, present, load_nets, ids_of, good) refl
      ]
    ]
  ]

  save_ids-IsRun :
      (key : String) (ids : List String)
      → IsRun
          (save_nets p store now key ids (failure_window t))
          (save_ids_calls p store t now key ids)
  unfolding IsRun save_nets save_ids_calls finish
  save_ids-IsRun key ids s = elim (Option-cases (p.marshal_texts ids)) [
    | inl bad ↦ rw (bad, save_nets, save_ids_calls, finish) refl
    | inr (value, good) ↦ rw (good, save_nets, save_ids_calls, finish) refl
  ]

  remember_id-IsRun :
      (key h : String) (ids : List String)
      → IsRun (remember_id p store t now key h ids) (remember_id_calls p store t now key h ids)
  unfolding remember_id remember_id_calls
  remember_id-IsRun key h ids = elim (Bool-cases (contains h ids)) [
    | inl old ↦ rw (old, remember_id, remember_id_calls) (return-IsRun tt)
    | inr new ↦
        rw (new, remember_id, remember_id_calls) (save_ids-IsRun key (add_id p store t now h ids))
  ]

  record_stuffing-IsRun :
      (identity ip : String)
      → IsRun
          (record_stuffing p store t now identity ip)
          (record_stuffing_calls p store t now identity ip)
  unfolding record_stuffing record_stuffing_calls
  record_stuffing-IsRun identity ip =
      let key = stuffing_key p ip in
      elim (Bool-cases (str_eq ip "")) [
        | inr known ↦
            rw (known, record_stuffing, record_stuffing_calls)
              (bind-IsRun (load_ids p store t now key)
                (then_do (load_call key) (λ value. ends (ids_of p store t now value))) _ _
                (load_ids-IsRun key) (remember_id-IsRun key (hash_token p identity)))
        | inl unknown ↦ rw (unknown, record_stuffing, record_stuffing_calls) (return-IsRun tt)
      ]

  pub count_failure-IsRun :
      (identity : String) (r : Option Request) (n : ℕ) (until : Option Instant)
      → IsRun
          (count_failure p store t now identity r n until)
          (count_failure_calls p store t now identity r n until)
  unfolding count_failure write_failure count_failure_calls
  count_failure-IsRun identity r n until =
      let crosses = leb (failures t) n && not (is_some until) in
      bind-IsRun (when crosses (lock_out p store t now identity))
        (when_call crosses (lock_out_calls p store t now identity)) _ _
        (when-IsRun crosses _ _ (lock_out-IsRun identity))
        (λ _.
          bind-IsRun (record_stuffing p store t now identity (client_ip p t r))
            (record_stuffing_calls p store t now identity (client_ip p t r)) _ _
            (record_stuffing-IsRun identity (client_ip p t r))
            (λ _. save_key-IsRun (failure_key p identity) (p.itoa n) (failure_window t)))

  record_failure-IsRun :
      (identity : String) (r : Option Request)
      → IsRun
          (record_failure p store t now identity r)
          (record_failure_calls p store t now identity r)
  unfolding record_failure record_failure_calls IsRun finish
  record_failure-IsRun identity r = elim (Bool-cases (str_eq identity "")) [
    | inr named ↦
        rw (named, record_failure, record_failure_calls)
          (bind-IsRun (load_key p store t now (failure_key p identity))
            (load_call (failure_key p identity)) _ _ (load_key-IsRun (failure_key p identity))
            (λ value.
              bind-IsRun (locked_until p store t now identity) (locked_calls p store t now identity)
                _ _ (locked_until-IsRun identity)
                (count_failure-IsRun identity r (counter_of p store t now value + 1))))
    | inl empty ↦ rw (empty, record_failure, record_failure_calls) (λ s. refl)
  ]

  -- The calls of an attempt, made one after another, answer and change the store as `RecordFailure` does.
  finish-record_failure_calls :
      (identity : String) (r : Option Request) (s : S)
      → finish store now (record_failure_calls p store t now identity r) s
        ≡ record_failure p store t now identity r s
  unfolding IsRun
  finish-record_failure_calls identity r s = record_failure-IsRun identity r s
